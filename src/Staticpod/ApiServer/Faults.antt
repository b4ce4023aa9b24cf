-- ===== src/Staticpod/ApiServer/Faults.antt =====
-- pkg/executor/staticpod/staticpod.go: what the loop of APIServer makes of two arguments that it means to
-- remove: the element behind a removed one is never looked at, and the last element is looked at twice.
use mathlib.Core.List.{append_assoc}
use rke.Base.{
  ℕ, suc, ◌+◌, ◌-◌, ◌≤◌, String, none, some, List, [], ◌∷◌, ◌++◌, ◌≡◌, refl, sym, ap, ◌∙◌, arith,
  Bool, true, false, leb, length, get_elem?, take, drop, All, length-append, take-append,
  drop-append_add, take-append_add, get_elem?-append, drop-append, All-append, All-take, All-drop,
}
use rke.Staticpod.ApiServer.{LoopState, shared, elements, remove, drop_it, action, loop, scan}
use rke.Staticpod.ApiServer.Loop.{IsKept, loop-kept}
use rke.Staticpod.ApiServer.Removal.{scan-drop_first, scan_past_drop}

module _ (external : Bool) (data_dir : String) (before : List String) (a b : String)
    (kept_before : All (IsKept external) before) where
  -- With an argument to drop among arguments that it keeps, the argument right behind it stays,
  -- whatever it is, if another one follows.
  pub scan-adjacent :
      (c : String) (after : List String)
      → All (IsKept external) (c ∷ after)
      → action external a ≡ drop_it
      → (st : LoopState) × (scan external data_dir (before ++ (a ∷ b ∷ c ∷ after)) ≡ some st)
        × (elements st.array st.args ≡ before ++ (b ∷ c ∷ after))
  scan-adjacent c after h = scan-drop_first before (b ∷ c ∷ after) a external data_dir kept_before (
      All-take (IsKept external) (suc (suc (length after)))
        (c ∷ (after ++ drop (length after) (c ∷ after)))
        (
          h.0,
          All-append (IsKept external) after (drop (length after) (c ∷ after)) h.1
              (All-drop (IsKept external) (length after) (c ∷ after) h),
        ))

  -- The last round panics if it reads an argument to drop, and `args` is shorter than the array.
  loop-last :
      (pre : List String) (len : ℕ) (st : LoopState)
      → action external b ≡ drop_it
      → st.array ≡ pre ++ (b ∷ [])
      → st.args ≡ shared len
      → len ≤ length pre
      → loop external data_dir 1 (length pre) st ≡ none
  unfolding loop
  loop-last pre len st h e e' l =
      let short : leb (length pre + 1) len ≡ false = ground arith in
      rw (e, get_elem?-append pre b [], h, e', short)

  -- A round that drops the last argument but one, where the last one is the same: `args` gets shorter.
  remove_twin :
      (pre : List String) (st : LoopState)
      → st.array ≡ pre ++ (b ∷ b ∷ [])
      → st.args ≡ shared (length pre + 1)
      → (st' : LoopState) × (remove (length pre) st ≡ some st')
        × (st'.array ≡ pre ++ (b ∷ b ∷ []))
        × (st'.args ≡ shared (length pre))
  unfolding remove
  remove_twin pre st e e' =
      let fits : leb (length pre + 1) (length pre + 1) ≡ true = ground arith in
      let count : length pre + 1 - 1 ≡ length pre = omega arith in
      let rest : drop (length pre + 1) (take (length pre + 1) (pre ++ (b ∷ b ∷ []))) ≡ [] =
        rw (take-append_add pre (b ∷ b ∷ []) 1) (drop-append_add pre (b ∷ []) 1) in
      (
        record st { array = pre ++ (b ∷ b ∷ []); args = shared (length pre) },
        rw (e, e', fits, count, take-append pre (b ∷ b ∷ []), rest, drop-append pre (b ∷ b ∷ [])),
        refl,
        refl,
      )

  -- From the first of two equal arguments to drop at the end of the array, the loop panics.
  loop_twin :
      (pre : List String) (st : LoopState)
      → action external b ≡ drop_it
      → st.array ≡ pre ++ (b ∷ b ∷ [])
      → st.args ≡ shared (length pre + 1)
      → loop external data_dir 2 (length pre) st ≡ none
  unfolding loop
  loop_twin pre st h e e' =
      let (st', removed, same, same_args) = remove_twin pre st e e' in
      let here : get_elem? st.array (length pre) ≡ some b =
        ap (λ xs. get_elem? xs (length pre)) e ∙ get_elem?-append pre b (b ∷ []) in
      let behind : length (pre ++ (b ∷ [])) ≡ suc (length pre) =
        omega (arith, length-append pre (b ∷ [])) in
      rw (here, h, removed)
        (rw behind at (
          loop-last (pre ++ (b ∷ [])) (length pre) st' h
            (same ∙ sym (append_assoc pre (b ∷ []) (b ∷ []))) same_args (omega (arith, behind))))

  last_twice :
      (x : String) (middle : List String)
      → drop (length (middle ++ (b ∷ []))) (x ∷ (middle ++ (b ∷ []))) ≡ b ∷ []
  last_twice x [] = refl
  last_twice x (y ∷ middle) = last_twice y middle

  twice_behind :
      (x : String) (middle : List String)
      → (x ∷ (middle ++ (b ∷ []))) ++ drop (length (middle ++ (b ∷ []))) (x ∷ (middle ++ (b ∷ [])))
        ≡ x ∷ (middle ++ (b ∷ b ∷ []))
  twice_behind x middle =
      rw (last_twice x middle) (ap (λ l. x ∷ l) (append_assoc middle (b ∷ []) (b ∷ [])))

  -- Past arguments that are kept, the loop comes to the end of such an array.
  loop_gap :
      (x : String) (middle : List String) (st : LoopState)
      → All (IsKept external) middle
      → action external b ≡ drop_it
      → st.array ≡ before ++ (x ∷ (middle ++ (b ∷ b ∷ [])))
      → st.args ≡ shared (length before + suc (suc (length middle)))
      → loop external data_dir (suc (suc (length middle))) (suc (length before)) st ≡ none
  loop_gap x middle st kept h array args =
      let index : suc (length before) ≡ length before + 1 = omega arith in
      let reads : take (length middle) (drop (suc (length before)) st.array) ≡ middle =
        rw (array, index, drop-append_add before (x ∷ (middle ++ (b ∷ b ∷ []))) 1)
          (take-append middle (b ∷ b ∷ [])) in
      let size : length st.array ≡ length before + suc (length middle + 2) =
        ap length array
        ∙ omega (
          arith,
          length-append before (x ∷ (middle ++ (b ∷ b ∷ []))),
          length-append middle (b ∷ b ∷ []),
        ) in
      let (st', after, same, same_args) =
        loop-kept external data_dir (length middle) 2 (suc (length before)) st (rw reads kept)
          (omega (arith, size)) in
      let count : suc (suc (length middle)) ≡ length middle + 2 = omega arith in
      let pre : length (before ++ (x ∷ middle)) ≡ suc (length before) + length middle =
        omega (arith, length-append before (x ∷ middle)) in
      let len : length before + suc (suc (length middle)) ≡ length (before ++ (x ∷ middle)) + 1 =
        omega (arith, pre) in
      rw count (
        after
        ∙ rw (← pre) (
            loop_twin (before ++ (x ∷ middle)) st' h
              (same ∙ (array ∙ sym (append_assoc before (x ∷ middle) (b ∷ b ∷ []))))
              (same_args ∙ (args ∙ ap shared len))))

  -- With two arguments to drop, the second one the last of all, and only arguments that it keeps before
  -- and between them, the loop panics.
  pub scan-panics :
      (middle : List String)
      → All (IsKept external) middle
      → action external a ≡ drop_it
      → action external b ≡ drop_it
      → scan external data_dir (before ++ (a ∷ (middle ++ (b ∷ [])))) ≡ none
  scan-panics [] kept_middle h h' =
      let (st, e, same, same_args) =
        scan_past_drop before (b ∷ []) a external data_dir kept_before h in
      let count : length (before ++ (b ∷ [])) ≡ suc (length before) =
        omega (arith, length-append before (b ∷ [])) in
      e
      ∙ rw count at (
          loop-last (before ++ (b ∷ [])) (length before + 1) st h'
            (same ∙ sym (append_assoc before (b ∷ []) (b ∷ []))) same_args (omega (arith, count)))
  scan-panics (x ∷ middle) kept_middle h h' =
      let (st, e, same, same_args) =
        scan_past_drop before (x ∷ (middle ++ (b ∷ []))) a external data_dir kept_before h in
      let count : length (middle ++ (b ∷ [])) ≡ suc (length middle) =
        omega (arith, length-append middle (b ∷ [])) in
      e
      ∙ rw count (
          loop_gap x middle st kept_middle.1 h'
            (same ∙ ap (λ l. before ++ l) (twice_behind x middle))
            (same_args ∙ ap (λ n. shared (length before + suc n)) count))

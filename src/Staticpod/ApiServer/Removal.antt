-- ===== src/Staticpod/ApiServer/Removal.antt =====
-- pkg/executor/staticpod/staticpod.go: what the loop of APIServer makes of its arguments, if at most one
-- of them is removed.
use rke.Base.{
  ℕ, suc, ◌+◌, ◌-◌, String, some, List, [], ◌∷◌, ◌++◌, ◌≡◌, refl, ap, ◌∙◌, arith, Bool, length,
  take, drop, All, length-append, take_all, take-append, drop-append_add, take-append_add,
  length-drop, All-append, All-take, All-drop, leb, get_elem?-append, true,
}
use rke.Staticpod.ApiServer.{
  LoopState, shared, elements, remove, prepend, kine_arg, drop_it, move_etcd, action, loop, begin,
  scan,
}
use rke.Staticpod.ApiServer.Loop.{IsKept, loop-kept}

-- The array after the removal of the element behind `before`: the rest moves down, the last element stays.
abbrev pub moved : List String → String → List String → List String
moved before bad after = before ++ (after ++ drop (length after) (bad ∷ after))

tail_kept :
    (P : String → Type 0) (bad : String) (after : List String)
    → All P after
    → All P (take (length after) (drop 1 (after ++ drop (length after) (bad ∷ after))))
tail_kept P bad [] h = tt
tail_kept P bad (a ∷ more) h =
    All-take P (suc (length more)) (more ++ drop (length more) (a ∷ more)) (
      All-append P more (drop (length more) (a ∷ more)) h.1 (All-drop P (length more) (a ∷ more) h))

module _ (before after : List String) (bad : String) where
  abbrev pub whole : List String
  whole = before ++ (bad ∷ after)

  length-whole : length whole ≡ suc (length before + length after)
  length-whole = omega (arith, length-append before (bad ∷ after))

  last_of_whole : drop (length whole - 1) whole ≡ drop (length after) (bad ∷ after)
  last_of_whole =
      let e : length whole - 1 ≡ length before + length after = omega (arith, length-whole) in
      rw e (drop-append_add before (bad ∷ after) (length after))

  remove_lem :
      (st : LoopState)
      → st.array ≡ whole
      → st.args ≡ shared (length whole)
      → remove (length before) st
        ≡ some (record st {
          array = moved before bad after;
          args = shared (length before + length after);
        })
  unfolding remove
  remove_lem st e e' =
      let fits : leb (length before + 1) (length whole) ≡ true = ground (arith, length-whole) in
      let count : length whole - 1 ≡ length before + length after = omega (arith, length-whole) in
      rw (
        e,
        e',
        fits,
        take_all whole,
        take-append before (bad ∷ after),
        drop-append_add before (bad ∷ after) 1,
        last_of_whole,
        count,
      )

  -- The state after the removal.
  abbrev dropped : LoopState → LoopState
  dropped st = record st {
    array = moved before bad after;
    args = shared (length before + length after);
  }

  module _ (external : Bool) (data_dir : String) (kept_before : All (IsKept external) before) where
    IsKept-first : All (IsKept external) (take (length before) whole)
    IsKept-first = rw (take-append before (bad ∷ after)) kept_before

    -- The loop comes to the removal.
    loop_first :
        (st : LoopState) × (loop external data_dir (length whole) 0 (begin whole)
          ≡ loop external data_dir (suc (length after)) (length before) st)
        × (st.array ≡ whole)
        × (st.args ≡ shared (length whole))
    loop_first =
        let (st, e, same, same_args) =
          loop-kept external data_dir (length before) (suc (length after)) 0 (begin whole)
            IsKept-first (omega (arith, length-whole)) in
        let count : length before + suc (length after) ≡ length whole =
          omega (arith, length-whole) in
        let index : ◌≡◌ {A = ℕ} (0 + length before) (length before) = omega arith in
        (st, rw (count, index) at e, same, same_args)

    length-moved : length (moved before bad after) ≡ length whole
    length-moved = omega (
      arith,
      length-whole,
      length-append before (after ++ drop (length after) (bad ∷ after)),
      length-append after (drop (length after) (bad ∷ after)),
      length-drop (length after) (bad ∷ after),
    )

    -- The loop past the removal.
    pub scan_past_drop :
        action external bad ≡ drop_it
        → (st : LoopState) × (scan external data_dir whole
            ≡ loop external data_dir (length after) (suc (length before)) st)
          × (st.array ≡ moved before bad after)
          × (st.args ≡ shared (length before + length after))
    unfolding scan
    scan_past_drop h =
        let (m, e, same, same_args) = loop_first in
        (
          dropped m,
          e ∙ rw (same, get_elem?-append before bad after, h, remove_lem m same same_args),
          refl,
          refl,
        )

  module _ (external : Bool) (data_dir : String) (kept_before : All (IsKept external) before)
      (kept_tail : All
        (IsKept external)
        (take (length after) (drop 1 (after ++ drop (length after) (bad ∷ after))))) where
    -- What the loop has yet to read after the removal: the element behind the removed one is skipped.
    IsKept-rest :
        All
          (IsKept external)
          (take (length after) (drop (suc (length before)) (moved before bad after)))
    IsKept-rest =
        let index : suc (length before) ≡ length before + 1 = omega arith in
        rw (index, drop-append_add before (after ++ drop (length after) (bad ∷ after)) 1) kept_tail

    -- And from there to its end.
    loop_rest :
        (st : LoopState)
        → st.array ≡ moved before bad after
        → (st' : LoopState) × (loop external data_dir (length after) (suc (length before)) st
            ≡ some st')
          × (st'.array ≡ st.array)
          × (st'.args ≡ st.args)
    unfolding loop
    loop_rest st e =
        let (st', done, same, same_args) =
          loop-kept external data_dir (length after) 0 (suc (length before)) st (rw e IsKept-rest)
            (rw e (omega (arith, length-moved external data_dir kept_before, length-whole))) in
        let count : length after + 0 ≡ length after = omega arith in
        (st', rw count at done, same, same_args)

    elements-moved : take (length before + length after) (moved before bad after) ≡ before ++ after
    elements-moved =
        take-append_add before (after ++ drop (length after) (bad ∷ after)) (length after)
        ∙ ap (λ l. before ++ l) (take-append after (drop (length after) (bad ∷ after)))

    pub scan-drop_first :
        action external bad ≡ drop_it
        → (st : LoopState) × (scan external data_dir whole ≡ some st)
          × (elements st.array st.args ≡ before ++ after)
    scan-drop_first h =
        let (m, e, same, same_args) = scan_past_drop external data_dir kept_before h in
        let (st, done, same', same_args') = loop_rest m same in
        (st, e ∙ done, rw (same', same_args', same, same_args) elements-moved)

    pub scan-move_first :
        action external bad ≡ move_etcd
        → (st : LoopState) × (scan external data_dir whole ≡ some st)
          × (elements st.array st.args ≡ kine_arg data_dir ∷ (before ++ after))
    unfolding scan
    scan-move_first h =
        let (m, e, same, same_args) = loop_first external data_dir kept_before in
        let (st, done, same', same_args') =
          loop_rest (prepend (kine_arg data_dir) (dropped m)) refl in
        (
          st,
          e ∙ rw (same, get_elem?-append before bad after, h, remove_lem m same same_args) done,
          rw (same', same_args') (ap (λ l. kine_arg data_dir ∷ l) elements-moved),
        )

module _ (external : Bool) (data_dir : String) (before after : List String) (bad : String)
    (kept_before : All (IsKept external) before) (kept_after : All (IsKept external) after) where
  -- With one argument that the switch drops, among arguments that it keeps, the loop does not panic, and
  -- leaves all arguments but that one, in their order.
  pub scan-drop_it :
      action external bad ≡ drop_it
      → (st : LoopState) × (scan external data_dir (before ++ (bad ∷ after)) ≡ some st)
        × (elements st.array st.args ≡ before ++ after)
  scan-drop_it =
      scan-drop_first before after bad external data_dir kept_before
        (tail_kept (IsKept external) bad after kept_after)

  -- With one argument that the switch moves (`--etcd-servers` with an external database), among arguments
  -- that it keeps, the loop does not panic, and leaves the others behind the socket of kine.
  pub scan-move_etcd :
      action external bad ≡ move_etcd
      → (st : LoopState) × (scan external data_dir (before ++ (bad ∷ after)) ≡ some st)
        × (elements st.array st.args ≡ kine_arg data_dir ∷ (before ++ after))
  scan-move_etcd =
      scan-move_first before after bad external data_dir kept_before
        (tail_kept (IsKept external) bad after kept_after)

-- With only arguments that the switch keeps, the loop does not panic, and leaves them all, in order.
pub scan-kept :
    (external : Bool) (data_dir : String) (args : List String)
    → All (IsKept external) args
    → (st : LoopState) × (scan external data_dir args ≡ some st)
      × (elements st.array st.args ≡ args)
unfolding scan
scan-kept external data_dir args h =
    let (st, done, same, same_args) =
      loop-kept external data_dir (length args) 0 0 (begin args)
        (All-take (IsKept external) (length args) args h) (omega arith) in
    let count : length args + 0 ≡ length args = omega arith in
    (st, rw count at done, rw (same, same_args) (take_all args))

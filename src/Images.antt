-- ===== src/Images.antt =====
-- pkg/images/images.go: the image resolver, and the preloading of images for static pods.
pub mod Names
pub mod Registry
pub mod Resolver
pub mod Preload

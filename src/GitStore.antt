-- ===== src/GitStore.antt =====
-- git-store/src: the requests that are passed to `git http-backend`.
pub mod Texts
pub mod Paths
pub mod Backend
mod Routes
mod Variables
mod Segments
mod Checks
mod Admitted
mod Repositories
mod Anonymous
mod Examples

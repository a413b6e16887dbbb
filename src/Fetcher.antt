-- ===== src/Fetcher.antt =====
-- fetcher/: the download of the feeds, and the fetchers that put a feed together.
pub mod Util
pub mod Feeds
pub mod Fedora
pub mod Amazon
pub mod Requests
pub mod Redhat

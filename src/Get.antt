-- ===== src/Get.antt =====
-- src/kv_get.c: the requests of a GET, from the index over the page chunks to the user's callback.
pub mod State
pub mod Process
pub mod Joined
pub mod Once
pub mod Load
pub mod Answer
mod Tests

-- ===== src/Console.antt =====
-- The administration pages of the server: static/js/kit.js, file.js, upload.js and main.js.
pub mod Kit
pub mod Browser
pub mod UploadQueue
pub mod Dashboard

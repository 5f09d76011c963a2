-- ===== src/Server/Upload.antt =====
-- The upload of a file: server/http_upload.go. Place names the file, Form checks the request, Save
-- is `SaveUploadFile`, Post is the handler.
pub mod Place
pub mod Save
pub mod Form
pub mod Post
pub mod Entry

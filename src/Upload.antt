-- ===== src/Upload.antt =====
-- src_cgi/upload_cgi.c: the upload of a whole file in one form.
pub mod Multipart
pub mod Find
pub mod Form
pub mod Gives
pub mod Sound

-- ===== src/Server/Auth/Peers.antt =====
-- Which clients `IsPeer` of server/fileserver.go takes for peers.
use go_fastdfs.Prelude.Text.{Text}

-- ===== src/Lib.antt =====
-- go-fastdfs: a distributed file server over HTTP (server/*.go), and the pages that administer it
-- (static/js/*.js).
--
-- Files:
--   Prelude and its children: numbers, lists, texts (lists of bytes or of UTF-16 units), decimal
--     numbers, signed integers, and Go's functions on texts and URLs.
--   Console.Kit: static/js/kit.js (getIconName, getFileType).
--   Console.Browser: static/js/file.js (getParentFile, openDir, setPathSide and the click handlers).
--     A handler gives the calls of jQuery and layer that it makes; Layers runs the handlers under
--     any order of clicks and replies. Zoom is the handler of the mouse wheel.
--   Console.UploadQueue: static/js/upload.js (choose, before, progress, done, error, deletion, the
--     binding of the progress, and the dialog of a link).
--   Console.Dashboard: static/js/main.js (getStat, the tasks, the change of the cluster).
--   Server.Types: server/config.go and the records of server/fileserver.go.
--   Server.SmallFile: ParseSmallFile and GetSmallFileByURI of server/fileserver.go, SaveSmallFile of
--     server/http_upload.go, DownloadSmallFileByURI of server/http_download.go.
--   Server.Paths: GetFilePathByInfo, GetFilePathFromRequest, getRequestURI and BuildFileResult of
--     server/fileserver.go; Small links them with Server.SmallFile.
--   Server.Database: what the server asks of leveldb and of goutil's CommonMap, as records of
--     operations and of laws; Tests.Memory fills them.
--   Server.Meta: saveFileMd5Log, SaveFileInfoToLevelDB, RemoveKeyFromLevelDB, SaveStat and ConsumerLog
--     of server/fileserver.go. Lookup and Catalog read the logs on their own, Counts counts them;
--     Clean is CleanLogLevelDBByDate and the cleaning of CleanAndBackUp.
--   Server.Stat: GetStat of server/fileserver.go; Summary reads the counts of Server.Meta through it.
--   Server.Auth: IsPeer of server/fileserver.go and CheckDownloadAuth of server/http_download.go;
--     Remote is CheckAuth of server/http_auth.go and the hook NewUpload of server/store.go.
--   Server.Remove: RemoveFile of server/http_remove.go; Downloading is RemoveDownloading.
--   Server.Router: initRouter of server/router.go, with the choice of a pattern by http.ServeMux. Group
--     says which handler answers which path.
--   Server.Reload: Reload of server/http_reload.go, ParseConfig of server/config.go and initComponent of
--     server/init.go; Applied sets a configuration and reloads it.
--   Server.Folders: cleanEmptyFolders of server/http_upload.go on a tree of directories, and its daily
--     runs; a run of it or of RepairFileInfoFromFile is filepath.Walk.
--   Server.Disk: the bytes of the file at each path, as the handlers write and remove them.
--   Server.Upload: server/http_upload.go. Place names the file, Form has the checks of a request,
--     Save is SaveUploadFile, Post is the handler upload, which composes them with Server.SmallFile,
--     Server.Meta and Server.Paths; Entry is Upload around it, with Server.Auth.Remote before it.
--   Server.Sync: postFileToPeer of server/fileserver.go, ConsumerDownLoad and the guard of
--     DownloadFromPeer of server/http_download.go; the disk and the peers' answers are parameters.
--     Queue is AppendToQueue and ConsumerPostToPeer with one worker; Workers has any number of workers
--     and of other goroutines, as a step relation over the queue and all of them.
--   Server.Download: Download, DownloadFromPeer and CheckFileExistByInfo of server/http_download.go and
--     server/fileserver.go. Replica and Part put two servers together.
--     Fallback is DownloadNotFound, and Taken a request that it answers from a peer.
--   Server.Repair: AutoRepair of server/http_repair.go, GetMd5sByDate and CheckFileAndSendToPeer of
--     server/fileserver.go, ReceiveMd5s, GetMd5sForWeb and Sync of server/http_info.go, SyncFileInfo of
--     server/http_upload.go; Recount is RepairStatByDate and RepairStatWeb of server/http_repair.go,
--     FromFile is RepairFileInfoFromFile on the tree of Server.Folders.
--   Server.Info: CheckFileExist, CheckFilesExist and GetFileInfo of server/http_info.go.
--   Server.Backup: BackUpMetaDataByDate of server/http_backup.go; ReadBack reads its file meta.data.
--   Tests: runs of the models, and each theorem at concrete data.
--
-- Numbers are natural numbers; Go's int64 is an integer with its range where a sum can leave it.
-- JavaScript's numbers are natural numbers below 2^53, where its arithmetic is exact. Printing a
-- number takes fuel n + 1, one more than its digits need. A download is tried on fuel, one more than
-- the retries need. GetStat counts through the range of its days, whose width is known. The search for
-- a free name in SaveUploadFile has the 10000 rounds of the code. A worker of a queue runs for a number
-- of rounds, and the sum over its queue of the copies that the retries allow is enough. The only other
-- loops recur on lists.
--
-- Third-party code is a parameter or a recorded call: jQuery, layui and layer in the pages, goutil
-- and leveldb in the server; the sets of golang-set are lists. The parsing of network addresses,
-- floating-point numbers, the clock, the hashes, and fmt.Sprintf of a format with a percent sign are
-- parameters too. A handler of the server is one step: what other requests do meanwhile is not seen,
-- but for the queue of Server.Sync.Workers.
-- Not modelled: styling of the chart, resizing of images, mail, the pages of information
-- but those of single files, and the start of the server but for initComponent.
pub mod Prelude
pub mod Console
pub mod Server
pub mod Tests

-- ===== src/Lib.antt =====
-- The C++ desktop of NiraOS: the greeter's login, the windows of the compositor and the taskbar,
-- the launcher, the icons on the desktop, the helpers of the shell, the client of the AI daemon,
-- the file manager and the text editor. Each class is a record of its state and a function for each
-- method, which takes the state and returns the new one with its signals or other effects.
-- Components meet at these effects: the compositor's register sends signals that the taskbar takes
-- (Windows/Mirror), the list of a folder tells the watch of a new path, which tells the list of
-- changes (Browser), the desktop's icons and the launcher share the reader of desktop files
-- (Apps/DesktopFile), the icons and the file manager the names of the trash (Files/Operations).
--
--   Base          names of the libraries, texts as lists of code units, lists, dictionaries, sorting,
--                 signed integers, and sets of texts (lists up to order, Sets)
--   Greeter       desktop/greeter/src/GreeterIPC: startAuth is start_auth, onReadyRead is
--                 on_ready_read, handleMessage is handle_message, and so on; Greeter/Wire has the frames
--                 of the protocol, the other files what is proved
--   Windows       Registry is desktop/compositor/src/WindowManagerDBus (registerWindow is
--                 register_window), Taskbar is desktop/shell/src/TaskbarModel (onWindowRegistered is
--                 on_window_registered); Mirror connects the two, Start has the calls and answers at the
--                 start of the taskbar, Seeding those about one window, Answers and Unique
--                 are the way to Started
--   Files         apps/files/src/FileOperations: Operations has copy, move, rename, delete_ (delete),
--                 the trash and the recursion over folders; System is what they ask of Qt and the disk,
--                 Names has the names of files, Info getFileInfo and humanSize
--   FileModel     apps/files/src/FileModel: the list of a folder, its sorting (Order) and its loads in
--                 the background (Loading); FileModel/Entry is one row
--   Apps          desktop/shell/src/AppModel (AppModel) and FilteredAppModel (Filter); FieldCodes is
--                 stripExecFieldCodes, DesktopFile the loop of parseDesktopFile
--   DesktopIcons  desktop/shell/src/DesktopIconModel: Entry is parseDesktopFile and entryFromInfo, Model
--                 the scans, Actions what the menus do
--   Notepad       apps/notepad/src/main.cpp: Documents is readFile and writeFile, Recent the recent
--                 files, Languages setLanguage, Keywords its tables, Highlight
--                 highlightBlock
--   Context       desktop/compositor/src/ContextExporter: the debounced writes of the active window;
--                 Updates has what reaches the file
--   Notifications desktop/shell/src/NotificationClient: onNotificationAdded is on_notification_added;
--                 Rows has what is proved
--   Users         desktop/greeter/src/UserModel: parsePasswd is parse_passwd, the sorting is in init
--   Storage       apps/files/src/StorageManager: the mounted volumes; Announcements is what its signals
--                 tell
--   Watcher       apps/files/src/FileSystemWatcher: the debounced watch of a folder; Debounce is what
--                 it reports
--   Browser       apps/files/src/main.cpp: the connections between FileModel and Watcher
--   Search        apps/files/src/SearchIndexer: performSearch is perform_search; Results is what it finds
--   Workspaces    desktop/shell/src/WorkspaceController: switchTo is switch_to; Moves has what is proved
--   Ai            desktop/shell/src/AiClient: the generation of an answer as steps of two threads
--                 (streamGenerate is stream_generate, runGeneration is register_context,
--                 look_up_context, open_stream, read_stream and finish_stream); Ai/Status has the other
--                 calls, Contexts, Ownership, Lifetime, Defined and Streams what is proved
--   Shell         smaller classes of the shell and the compositor: TrashIcon, Volume, Power, Wallpapers,
--                 WallpaperSource (WallpaperWatcher) and ProcessLauncher
--   Icons         ThemeIconProvider of the four programs that have one, each a function of its own;
--                 Thumbnails is apps/files/src/ThumbnailProvider
--   Settings      desktop/settings/src/SettingsClient: getSetting is get_setting
--   Startup       what the main functions decide, and desktop/common/DesktopMetrics
--
-- What the code asks of Qt, of the disk and of other programs is a parameter: records of functions
-- (Files.System.FileSystem and Paths, DesktopIcons.Disk, FileModel.Qt, Apps.AppModel.Qt, Users.Qt,
-- Search.Qt, Shell.TrashIcon.Disk, Notepad.Documents.Disk, and the records in Greeter), with what
-- is relied on as named laws. Numbers that the code holds in an int or qint64 are natural numbers
-- or integers here, which is right as long as they do not overflow; the four bytes of a frame's
-- length and the counter of the notifications' ids wrap as in the source.
--
-- Loops are recursion on lists, or on fuel. The recursion over folders takes fuel from its caller,
-- and none says that it ran out: more than the depth of the folder is enough for a delete. The loop
-- over a line's comments has one more than the length of the line, the loop over a greeter's buffer
-- one more than the length of the buffer, the trim of the recent files as much as the list is long;
-- the loops over names have the source's own bounds of 10000, 9999 and 999 rounds.
--
-- Not modelled: threads, since each slot and each background task runs as one step here (the write
-- in Context starts in one step and ends in another, and Ai has a step for each wait or lock);
-- regular expressions of the highlighter, which are a parameter; the decoding and scaling of
-- images; the translation of messages; the registration of objects at the start, QML, the services
-- written in Rust, and vendored code.
pub mod Base
pub mod Greeter
pub mod Windows
pub mod Files
pub mod FileModel
pub mod Apps
pub mod DesktopIcons
pub mod Notepad
pub mod Context
pub mod Notifications
pub mod Users
pub mod Storage
pub mod Watcher
pub mod Browser
pub mod Search
pub mod Workspaces
pub mod Ai
pub mod Shell
pub mod Icons
pub mod Settings
pub mod Startup

-- ===== src/Lib.antt =====
-- Monk SKUD UNEX is an access control server: it drives UNEX AR-721H/727H controllers over a serial line,
-- keeps users and their cards, and records who came and went.
--
-- Parts and files (paths are from the repository's root):
-- - src/utils/Util.cpp: numbers, cards and escapes are Text and its children. A text is its list of bytes.
-- - include/skud/Types.h: Types has the records of the site, Types/Jobs those of the worker's jobs. A
--   status text is a constructor named after it; texts for people are left out.
-- - src/unex/Unex721Protocol.cpp: Protocol/Frame builds and checks frames, Protocol/Link sends one command
--   and waits for its reply, Protocol/Reply tests an acknowledgement. On these stand Protocol/Slot
--   (readUser), Protocol/Upload (writeUser, clearUserSlot, deleteUser, clearAllUsers), Protocol/NodeId
--   (readNodeId, setNodeId), Protocol/Eeprom (readEeprom, writeEeprom, disablePassAnyCards) and
--   Protocol/Event (getOldestEvent, removeOldestEvent, decodeEvent, setSystemTime).
-- - src/users/UserManager.cpp: Users has the cards of one user, Users/Ops the methods on the list of users,
--   Users/Csv its file.
-- - src/import/SoyalImport.cpp is SoyalImport, src/departments/DepartmentManager.cpp is Departments.
-- - src/attendance/AttendanceEngine.cpp: Attendance has the delivery of an event, Attendance/Maintenance
--   the loading of states, the migration of keys and the reset, Attendance/Present who is there.
-- - src/storage/FileStore.cpp: Text/Csv and Text/Int have rows and numbers, Storage/Files the file system
--   and the replacement of a file, Storage/Formats the lines, Storage/FileStore the reads and writes, and
--   Storage/Daily the events and the employees of a day.
-- - src/config/Config.cpp is Config. src/serial/SerialPort.cpp: Serial takes frames out of incoming bytes.
-- - src/reports/ReportManager.cpp: Reports/Words (cells), Calendar (dates), Build and Extended (the two
--   reports), Telegram (messages and attempts), Deliver (both ways to send) and Schedule.
-- - src/controllers/ControllerManager.cpp: Controllers/Upload, Delete, Read (with Verdict), Action, Event
--   (with Drain) and Search (with Patterns and Matches) are the jobs of the worker thread, which call the
--   protocol, the users and the attendance; Controllers/Trace is the ring of its messages,
--   Controllers/Stored (with Rows) what it keeps in files.
-- - src/telegram/TelegramNotifier.cpp is Notifier.
-- - src/web/WebServer.cpp: Web/Request reads requests and forms, Web/Site has the state that handlers work
--   on and their answers, Web/Jobs (with Forms) and Web/Users (with Fields) the handlers, Web/Route the
--   guard and the sessions, and Web/Endpoints the table of what is behind the login.
-- Base has the shared helpers: tests on numbers, lists, integers, association lists for std::map, bits.
-- Children named Verified, Safety, Progress, Completion, Confirmed, Balanced, Safe, Check, Corruption,
-- RoundTrip, Text/Csv/Rows, Replace, Events, Tables, Summary, Width, Days, Counts, Totals, Chunks,
-- Attempts, Once, Framing, Counted, Unique, Covered, Occurrences, Merged, Sent, Form, Full, Saved, Guarded,
-- Sessions, Bounded, Presence, Key, Alternation, Redelivery, Reset and Cards hold proofs; Examples holds
-- runs.
--
-- Conventions. A command of the protocol is a function on a Link: the world of the port, and the trace. The
-- port is an interface whose replies are arbitrary bytes, so a lost, broken or echoed frame is a case of
-- every statement. Integers that may be negative are of type ℤ; a node is a natural number, cut to a byte
-- (% 256) where the source casts it. Locks make each method atomic, and what other threads do between two
-- steps of the worker is not modelled, except that the running flag may change at any time: it is a
-- function of the outside world. The engine sees its store through the interface Store and its laws Keeps;
-- Storage/FileStore/Events is about the files behind it. Files are an interface with the laws that its
-- record Reliable names, which exclude a write that is lost. The database, the network, clocks and the
-- conversions of dates are arguments. Pauses are left out. A std::map is a list whose order no theorem
-- uses, and std::sort keeps the order of equal elements here.
--
-- Bounds. Three reads follow one command, as in the source; a read job takes six slots in one turn and an
-- attendance job twenty events. All loops but one are recursion on a list or on such a number, so they end.
-- The loop over the days of a report stops at 3661 days, one more than build lets pass, so that bound cuts
-- no range (Reports/Calendar/Days). The serial reader takes 64 or 256 bytes to find a frame, as in the
-- source.
--
-- Sessions are texts that a random source gives, and a hash is an argument: nothing is said about how hard
-- they are to guess. An answer of the server tells what it shows; JSON texts of lists are left out.
--
-- Not modelled: the polling loop in ControllerManager.cpp; the move of old files of users, departments and
-- events into the database; in WebServer.cpp the requests of reports and of SOYAL files, the rows of the
-- monitor, and JSON texts; the metrics, the SQL of MariaDbUserStore.cpp, and the start-up. They are input
-- and output, or are left for later.
pub mod Base
pub mod Text
pub mod Types
pub mod Protocol
pub mod Serial
pub mod Users
pub mod SoyalImport
pub mod Departments
pub mod Attendance
pub mod Storage
pub mod Config
pub mod Notifier
pub mod Reports
pub mod Controllers
pub mod Web
pub mod Examples

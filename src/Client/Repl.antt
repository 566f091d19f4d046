-- ===== src/Client/Repl.antt =====
-- client_cli/src/cli/repl.cpp: one line of input. The reply of the HTTP request, if the command
-- makes one, is an argument; the result's text is printed, and `on_login_` runs after a login.
use zaza.Common.{Bool, true, false, ◌||◌, Bytes, bytes, [], ◌++◌, same, bytes_eq, if◌then◌else◌}
use zaza.Signaling.Json.{JsonLibrary}
use zaza.Client.Session.{is_empty}
use zaza.Client.Parser.{Command, parse_line}
use zaza.Client.Commands.{
  Commands, CommandResult, HttpReply, refuse, login, call, accept, reject, hangup, mute, unmute,
  record_, register_, stop, sendfile, status, quit_,
}

-- What a line comes to: the result of its command, and whether `on_login_` is called.
pub record LineResult : Type 0 where
  pub result : CommandResult
  pub logs_in : Bool

-- The help behind an unknown command.
unfoldable pub unknown_command : Bytes → Bytes
unknown_command name =
    bytes "unknown command: "
    ++ (name
        ++ bytes
            " (try: login register call accept reject hangup mute unmute record stop sendfile status quit)")

module _ (lib : JsonLibrary) (what : Bytes) where
  -- The chain of comparisons, but for `login`.
  unfoldable pub run_command : Commands → Command → HttpReply → CommandResult
  unfolding refuse call accept reject hangup mute unmute record_ register_ stop sendfile status
      quit_ unknown_command
  run_command c cmd reply =
      if same cmd.name (bytes "call")
      then call lib what c cmd.args
      else if same cmd.name (bytes "accept")
      then accept lib what c
      else if same cmd.name (bytes "reject")
      then reject lib what c
      else if same cmd.name (bytes "hangup")
      then hangup lib what c
      else if same cmd.name (bytes "mute")
      then mute lib what c
      else if same cmd.name (bytes "unmute")
      then unmute lib what c
      else if same cmd.name (bytes "record")
      then record_ lib what c cmd.args
      else if same cmd.name (bytes "register")
      then register_ lib what c cmd.args reply
      else if same cmd.name (bytes "stop")
      then stop lib what c
      else if same cmd.name (bytes "sendfile")
      then sendfile lib what c cmd.args
      else if same cmd.name (bytes "status")
      then status lib what c
      else if same cmd.name (bytes "quit") || same cmd.name (bytes "exit")
      then quit_ lib what c
      else refuse c (unknown_command cmd.name)

  -- An empty line, or one of spaces only, does nothing.
  unfoldable pub process_line : Commands → Bytes → HttpReply → LineResult
  unfolding run_command login parse_line
  process_line c line reply =
      let cmd = parse_line line in
      if is_empty cmd.name
      then record {
        result = record { commands = c; effects = []; ok = true; message = [] };
        logs_in = false;
      }
      else if same cmd.name (bytes "login")
      then (let r = login lib what c cmd.args reply in record { result = r; logs_in = r.ok })
      else record { result = run_command c cmd reply; logs_in = false }

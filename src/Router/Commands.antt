-- ===== src/Router/Commands.antt =====
-- internal/router/router.go: the commands. The switch of routeCommand is a table of its cases: the words
-- of a case, and what it decides.
use open_light.Base.{
  Bool, true, false, not, ◌||◌, ◌&&◌, Option, none, some, List, [], ◌∷◌, if◌then◌else◌,
}
use open_light.Base.Text.{
  Text, codes, eqt, one_of, trim_space, has_prefix, trim_prefix, is_empty_text,
}
use open_light.Router.{Mode, slash, Decision, decide}
use open_light.Router.Args.{
  Args, no_args, one_arg, file_path_args, parse_file_read_args, parse_file_write_args,
  parse_file_search_args, parse_file_stat_args, parse_file_replace_args, parse_browser_args,
  parse_exec_code_args, parse_exec_file_args, parse_workbench_run_args, parse_user_add_args,
  parse_user_delete_args, parse_user_list_args,
}

-- What a case does with the text behind the command.
pub data Form : Type 0 where
  -- routeNoArgCommand
  no_arg : Text → Form
  -- one argument: the text, or the trimmed text
  with_text with_trimmed : Text → Text → Form
  status_or_service watch files browse run : Form
  user_args : Text → (Text → Args) → Form
  parsed : Text → (Text → Option Args) → Form
  -- parseFileReadArgs, which also reads the command
  read_file : Form

pub record Case : Type 0 where
  pub commands : List Text
  pub form : Form

abbrev case : Text → Form → Case
case c form = record { commands = c ∷ []; form = form }

abbrev case_of : List Text → Form → Case
case_of cs form = record { commands = cs; form = form }

unfoldable pub cases : List Case
cases =
    case (codes "start") (no_arg (codes "start"))
    ∷ case (codes "help") (with_text (codes "help") (codes "topic"))
    ∷ case (codes "ping") (no_arg (codes "ping"))
    ∷ case (codes "skills") (with_text (codes "skills") (codes "topic"))
    ∷ case (codes "enable") (with_trimmed (codes "watch_enable") (codes "pack"))
    ∷ case (codes "status") status_or_service
    ∷ case (codes "cpu") (no_arg (codes "cpu"))
    ∷ case_of (codes "memory" ∷ codes "ram" ∷ []) (no_arg (codes "memory"))
    ∷ case_of (codes "disk" ∷ codes "storage" ∷ []) (no_arg (codes "disk"))
    ∷ case (codes "uptime") (no_arg (codes "uptime"))
    ∷ case (codes "ip") (no_arg (codes "ip"))
    ∷ case_of (codes "hostname" ∷ codes "host" ∷ []) (no_arg (codes "hostname"))
    ∷ case_of (codes "temp" ∷ codes "temperature" ∷ []) (no_arg (codes "temperature"))
    ∷ case_of (codes "services" ∷ codes "service list" ∷ []) (no_arg (codes "service_list"))
    ∷ case_of (codes "service" ∷ codes "service status" ∷ [])
        (with_text (codes "service_status") (codes "service"))
    ∷ case_of (codes "restart" ∷ codes "service restart" ∷ [])
        (with_text (codes "service_restart") (codes "service"))
    ∷ case_of (codes "logs" ∷ codes "log" ∷ codes "service logs" ∷ [])
        (with_text (codes "service_logs") (codes "service"))
    ∷ case (codes "watch") watch
    ∷ case (codes "watch add") (with_trimmed (codes "watch_add") (codes "spec"))
    ∷ case (codes "watch list") (no_arg (codes "watch_list"))
    ∷ case_of (codes "watch pause" ∷ codes "watch toggle" ∷ [])
        (with_trimmed (codes "watch_pause") (codes "id"))
    ∷ case_of (codes "watch remove" ∷ codes "watch delete" ∷ [])
        (with_trimmed (codes "watch_remove") (codes "id"))
    ∷ case_of (codes "watch history" ∷ codes "watch incidents" ∷ [])
        (with_trimmed (codes "watch_history") (codes "id"))
    ∷ case_of (codes "watch test" ∷ codes "watch probe" ∷ [])
        (with_trimmed (codes "watch_test") (codes "id"))
    ∷ case_of
        (codes "users" ∷ codes "accounts" ∷ codes "user providers" ∷ codes "account providers" ∷ [])
        (no_arg (codes "user_providers"))
    ∷ case_of (codes "user list" ∷ codes "list users" ∷ [])
        (user_args (codes "user_list") parse_user_list_args)
    ∷ case_of (codes "user add" ∷ codes "add user" ∷ codes "register user" ∷ [])
        (user_args (codes "user_add") parse_user_add_args)
    ∷ case_of
        (codes "user delete"
          ∷ codes "delete user"
          ∷ codes "remove user"
          ∷ codes "unregister user"
          ∷ [])
        (user_args (codes "user_delete") parse_user_delete_args)
    ∷ case_of
        (codes "note delete"
          ∷ codes "delete note"
          ∷ codes "remove note"
          ∷ codes "note remove"
          ∷ codes "note_delete"
          ∷ [])
        (with_text (codes "note_delete") (codes "id"))
    ∷ case_of (codes "note" ∷ codes "note add" ∷ codes "add note" ∷ [])
        (with_text (codes "note_add") (codes "text"))
    ∷ case_of (codes "notes" ∷ codes "note list" ∷ codes "list notes" ∷ [])
        (no_arg (codes "note_list"))
    ∷ case_of (codes "remember" ∷ codes "memory add" ∷ [])
        (with_text (codes "memory_add") (codes "text"))
    ∷ case_of (codes "memories" ∷ codes "memory list" ∷ [])
        (with_trimmed (codes "memory_list") (codes "query"))
    ∷ case_of (codes "forget" ∷ codes "memory delete" ∷ codes "memory forget" ∷ [])
        (with_trimmed (codes "memory_delete") (codes "ref"))
    ∷ case_of (codes "files" ∷ codes "file list" ∷ codes "list files" ∷ codes "file_list" ∷ [])
        files
    ∷ case_of
        (codes "read"
          ∷ codes "show"
          ∷ codes "cat"
          ∷ codes "file read"
          ∷ codes "read file"
          ∷ codes "file_read"
          ∷ [])
        read_file
    ∷ case_of
        (codes "file search"
          ∷ codes "search files"
          ∷ codes "find in files"
          ∷ codes "grep"
          ∷ codes "file_search"
          ∷ [])
        (parsed (codes "file_search") parse_file_search_args)
    ∷ case_of (codes "file info" ∷ codes "file stat" ∷ codes "metadata" ∷ codes "file_stat" ∷ [])
        (parsed (codes "file_stat") parse_file_stat_args)
    ∷ case_of
        (codes "write"
          ∷ codes "file write"
          ∷ codes "write file"
          ∷ codes "create file"
          ∷ codes "file_write"
          ∷ [])
        (parsed (codes "file_write") parse_file_write_args)
    ∷ case_of
        (codes "replace" ∷ codes "file replace" ∷ codes "replace file" ∷ codes "file_replace" ∷ [])
        (parsed (codes "file_replace") parse_file_replace_args)
    ∷ case (codes "run") run
    ∷ case_of (codes "exec code" ∷ codes "exec_code" ∷ codes "run code" ∷ [])
        (parsed (codes "exec_code") parse_exec_code_args)
    ∷ case_of (codes "exec file" ∷ codes "exec_file" ∷ codes "run file" ∷ [])
        (parsed (codes "exec_file") parse_exec_file_args)
    ∷ case_of (codes "workspace clean" ∷ codes "workspace_clean" ∷ codes "clean workspace" ∷ [])
        (no_arg (codes "workspace_clean"))
    ∷ case_of (codes "browse" ∷ codes "browser" ∷ []) browse
    ∷ case_of (codes "chat" ∷ codes "ask" ∷ []) (with_text (codes "chat") (codes "text"))
    ∷ []

abbrev is_slash : Mode → Bool
is_slash slash = true
is_slash _ = false

unfoldable pub route_no_arg_command : Mode → Text → Text → Option Decision
route_no_arg_command mode skill_name args_text =
    if not (is_slash mode) && not (is_empty_text (trim_space args_text))
    then none
    else some (decide mode skill_name no_args)

-- `strings.TrimSpace(strings.TrimPrefix(argsText, prefix))` as the argument
abbrev watch_arg : Mode → Text → Text → Text → Text → Option Decision
watch_arg mode skill_name key text prefix =
    some (decide mode skill_name (one_arg key (trim_space (trim_prefix text prefix))))

unfoldable pub parse_watch_command : Mode → Text → Option Decision
parse_watch_command mode args_text =
    let text = trim_space args_text in
    if is_empty_text text || eqt text (codes "list")
    then some (decide mode (codes "watch_list") no_args)
    else if has_prefix text (codes "add ")
    then watch_arg mode (codes "watch_add") (codes "spec") text (codes "add ")
    else if has_prefix text (codes "pause ")
    then watch_arg mode (codes "watch_pause") (codes "id") text (codes "pause ")
    else if has_prefix text (codes "toggle ")
    then watch_arg mode (codes "watch_pause") (codes "id") text (codes "toggle ")
    else if has_prefix text (codes "remove ")
    then watch_arg mode (codes "watch_remove") (codes "id") text (codes "remove ")
    else if has_prefix text (codes "delete ")
    then watch_arg mode (codes "watch_remove") (codes "id") text (codes "delete ")
    else if eqt text (codes "history")
    then some (decide mode (codes "watch_history") no_args)
    else if has_prefix text (codes "history ")
    then watch_arg mode (codes "watch_history") (codes "id") text (codes "history ")
    else if has_prefix text (codes "incidents ")
    then watch_arg mode (codes "watch_history") (codes "id") text (codes "incidents ")
    else if has_prefix text (codes "test ")
    then watch_arg mode (codes "watch_test") (codes "id") text (codes "test ")
    else if has_prefix text (codes "probe ")
    then watch_arg mode (codes "watch_test") (codes "id") text (codes "probe ")
    else none

abbrev of_args : Mode → Text → Option Args → Option Decision
of_args mode skill_name none = none
of_args mode skill_name (some args) = some (decide mode skill_name args)

abbrev of_browse : Mode → Option (Args × Text) → Option Decision
of_browse mode none = none
of_browse mode (some (args, skill_name)) = some (decide mode skill_name args)

abbrev of_run : Mode → Option (Text × Args) → Option Decision
of_run mode none = none
of_run mode (some (skill_name, args)) = some (decide mode skill_name args)

unfoldable pub run_form : Form → Text → Text → Mode → Option Decision
unfolding route_no_arg_command parse_watch_command
run_form (no_arg skill_name) command args_text mode = route_no_arg_command mode skill_name args_text
run_form (with_text skill_name key) command args_text mode =
    some (decide mode skill_name (one_arg key args_text))
run_form (with_trimmed skill_name key) command args_text mode =
    some (decide mode skill_name (one_arg key (trim_space args_text)))
run_form status_or_service command args_text mode =
    if is_empty_text args_text
    then some (decide mode (codes "status") no_args)
    else some (decide mode (codes "service_status") (one_arg (codes "service") args_text))
run_form watch command args_text mode = parse_watch_command mode args_text
run_form files command args_text mode =
    some (decide mode (codes "file_list") (file_path_args args_text))
run_form browse command args_text mode = of_browse mode (parse_browser_args args_text)
run_form run command args_text mode = of_run mode (parse_workbench_run_args args_text)
run_form (user_args skill_name parse) command args_text mode =
    some (decide mode skill_name (parse args_text))
run_form (parsed skill_name parse) command args_text mode =
    of_args mode skill_name (parse args_text)
run_form read_file command args_text mode =
    of_args mode (codes "file_read") (parse_file_read_args command args_text)

-- The first case that has the command decides; a refusal of it is a refusal.
unfoldable pub find_case : List Case → Text → Option Form
find_case [] command = none
find_case (c ∷ rest) command =
    if one_of command c.commands then some c.form else find_case rest command

abbrev run_found : Option Form → Text → Text → Mode → Option Decision
run_found none command args_text mode = none
run_found (some form) command args_text mode = run_form form command args_text mode

unfoldable pub route_command : Text → Text → Mode → Option Decision
unfolding find_case cases run_form
route_command command args_text mode = run_found (find_case cases command) command args_text mode

-- ===== src/Router/Args.antt =====
-- internal/router/router.go: the arguments behind a command. A text that is found in lower case is cut
-- at the same rune of the text as it was written.
pub mod Written
use open_light.Base.{
  ℕ, zero, suc, ◌+◌, Bool, true, false, not, ◌||◌, ◌&&◌, ltb, leb, ◌==◌, Option, none, some, List,
  [], ◌∷◌, ◌++◌, if◌then◌else◌, length,
}
use open_light.Base.Text.{
  Text, codes, eqt, one_of, to_lower, trim_space, fields, join, has_prefix, trim_prefix, contains,
  is_empty_text,
}
use open_light.Base.Text.Search.{
  cut, index, last_index, drop_text, take_text, has_code, replace_code, before_code,
}

abbrev pub Args : Type 0
Args = List (Text × Text)

abbrev pub no_args : Args
no_args = []

abbrev pub one_arg : Text → Text → Args
one_arg key value = (key, value) ∷ []

unfoldable pub normalize_route_command : Text → Text
unfolding before_code replace_code
normalize_route_command value =
    join
      (fields (
        replace_code b'-' b' ' (
          replace_code b'_' b' '
            (to_lower (before_code b'@' (trim_prefix (trim_space value) (codes "/")))))))
      (codes " ")

unfoldable pub trim_single_leading_space : Text → Text
trim_single_leading_space value = trim_prefix value (codes " ")

unfoldable pub first_token : Text → Text
first_token value = first_of (fields (trim_space value))
  where
    first_of : List Text → Text
    first_of [] = []
    first_of (f ∷ fs) = f

-- filepath.Ext: what stands from the last dot on, if no slash is behind it
unfoldable pub extension : Text → Text
extension [] = []
extension (c ∷ s) =
    let rest = extension s in
    if not (is_empty_text rest)
    then rest
    else if c == b'.' && not (has_code b'/' s)
    then c ∷ s
    else []

unfoldable pub looks_like_path : Text → Bool
unfolding extension has_code
looks_like_path value =
    let path = trim_space value in
    if is_empty_text path
    then false
    else if has_prefix path (codes "/")
        || has_prefix path (codes "./")
        || has_prefix path (codes "../")
        || has_prefix path (codes "~")
        || has_prefix path (codes ".")
    then true
    else if has_code b'/' path || has_code b'\\' path
    then true
    else not (is_empty_text (extension path))

unfoldable pub looks_like_runtime : Text → Bool
looks_like_runtime value = one_of (to_lower (trim_space value)) (
    codes "python"
    ∷ codes "python3"
    ∷ codes "sh"
    ∷ codes "shell"
    ∷ codes "bash"
    ∷ codes "node"
    ∷ codes "javascript"
    ∷ codes "js"
    ∷ [])

unfoldable pub looks_like_url : Text → Bool
looks_like_url value =
    let url = to_lower (trim_space value) in
    has_prefix url (codes "http://") || has_prefix url (codes "https://")

unfoldable pub file_path_args : Text → Args
file_path_args args_text =
    if is_empty_text (trim_space args_text)
    then no_args
    else one_arg (codes "path") (trim_space args_text)

unfoldable pub parse_file_read_args : Text → Text → Option Args
parse_file_read_args command args_text =
    let path = trim_space args_text in
    if is_empty_text path
    then (if one_of command (codes "file_read" ∷ codes "read file" ∷ codes "file read" ∷ [])
        then some no_args
        else none)
    else if not (looks_like_path path)
    then none
    else some (one_arg (codes "path") path)

abbrev pub written : Text → Text → Option Args
written path content =
    if not (looks_like_path path)
    then none
    else some ((codes "path", path) ∷ (codes "content", content) ∷ [])

abbrev write_colons : Option (Text × Text) → Text → Option Args
write_colons none text = written text []
write_colons (some (path, content)) text =
    written (trim_space path) (trim_single_leading_space content)

abbrev pub write_lines : Option (Text × Text) → Text → Option Args
write_lines none text = write_colons (cut text (codes "::")) text
write_lines (some (path, content)) text = written (trim_space path) content

unfoldable pub parse_file_write_args : Text → Option Args
unfolding cut trim_single_leading_space
parse_file_write_args args_text =
    let text = trim_space args_text in
    if is_empty_text text then none else write_lines (cut text (codes "\n")) text

abbrev search_in : Option ℕ → Text → Args
search_in (some (suc n)) text =
    let pattern = trim_space (take_text (suc n) text) in
    let path = trim_space (drop_text (suc n + 4) text) in
    if not (is_empty_text pattern) && looks_like_path path
    then (codes "pattern", pattern) ∷ (codes "path", path) ∷ []
    else one_arg (codes "pattern") text
search_in _ text = one_arg (codes "pattern") text

abbrev search_colons : Option (Text × Text) → Text → Args
search_colons none text = search_in (last_index (to_lower text) (codes " in ")) text
search_colons (some (left, right)) text =
    if looks_like_path (trim_space left)
      && not (is_empty_text (trim_space (trim_single_leading_space right)))
    then (codes "path", trim_space left)
      ∷ (codes "pattern", trim_space (trim_single_leading_space right))
      ∷ []
    else search_in (last_index (to_lower text) (codes " in ")) text

unfoldable pub parse_file_search_args : Text → Option Args
unfolding cut trim_single_leading_space last_index take_text drop_text
parse_file_search_args args_text =
    let text = trim_space args_text in
    if is_empty_text text then none else some (search_colons (cut text (codes "::")) text)

unfoldable pub parse_file_stat_args : Text → Option Args
parse_file_stat_args args_text =
    if not (looks_like_path (trim_space args_text))
    then none
    else some (one_arg (codes "path") (trim_space args_text))

abbrev replaced : Text → Text → Text → Option Args
replaced path find replacement =
    if is_empty_text find || not (looks_like_path path)
    then none
    else some ((codes "path", path) ∷ (codes "find", find) ∷ (codes "replace", replacement) ∷ [])

-- `text[:with]`, what stands between " with " and " in ", and what stands behind
abbrev replace_at : ℕ → ℕ → Text → Option Args
replace_at with_idx in_idx text =
    if with_idx == 0 || leb in_idx (with_idx + 6)
    then none
    else replaced (trim_space (drop_text (in_idx + 4) text)) (trim_space (take_text with_idx text))
        (trim_space (drop_text (with_idx + 6) (take_text in_idx text)))

abbrev replace_words : Option ℕ → Option ℕ → Text → Option Args
replace_words (some with_idx) (some in_idx) text = replace_at with_idx in_idx text
replace_words _ _ text = none

abbrev replace_arrow : Text → Option (Text × Text) → Option Args
replace_arrow path none = none
replace_arrow path (some (find, replacement)) =
    replaced (trim_space path) (trim_space find) (trim_single_leading_space replacement)

abbrev replace_colons : Option (Text × Text) → Text → Option Args
replace_colons (some (path, rest)) text =
    if contains text (codes "=>")
    then replace_arrow path (cut rest (codes "=>"))
    else replace_words (index (to_lower text) (codes " with "))
        (last_index (to_lower text) (codes " in ")) text
replace_colons none text =
    replace_words (index (to_lower text) (codes " with "))
      (last_index (to_lower text) (codes " in ")) text

unfoldable pub parse_file_replace_args : Text → Option Args
unfolding cut trim_single_leading_space index last_index take_text drop_text
parse_file_replace_args args_text =
    let text = trim_space args_text in
    if is_empty_text text then none else replace_colons (cut text (codes "::")) text

abbrev checked : Option (Text × Text) → Option (Args × Text)
checked none = none
checked (some (url, expected)) =
    if looks_like_url (trim_space url)
      && not (is_empty_text (trim_space (trim_single_leading_space expected)))
    then some (
      (codes "url", trim_space url)
          ∷ (codes "expected_text", trim_single_leading_space expected)
          ∷ [],
      codes "browser_check",
    )
    else none

abbrev visited : Text → Text → Option (Args × Text)
visited rest skill_name =
    if not (looks_like_url (first_token rest))
    then none
    else some (one_arg (codes "url") (first_token rest), skill_name)

abbrev browser_action : Text → Text → Option (Args × Text)
browser_action action rest =
    if eqt action (codes "title")
    then visited rest (codes "browser_title")
    else if eqt action (codes "text")
    then visited rest (codes "browser_text")
    else if eqt action (codes "screenshot")
    then visited rest (codes "browser_screenshot")
    else if eqt action (codes "check")
    then checked (cut rest (codes "::"))
    else none

abbrev browser_fields : List Text → Text → Option (Args × Text)
browser_fields (f ∷ g ∷ fs) text =
    browser_action (to_lower (trim_space f)) (trim_space (trim_prefix text f))
browser_fields _ text = none

unfoldable pub parse_browser_args : Text → Option (Args × Text)
unfolding cut trim_single_leading_space
parse_browser_args args_text =
    let text = trim_space args_text in
    if is_empty_text text then none else browser_fields (fields text) text

-- strings.TrimSuffix(header, ":")
unfoldable pub trim_colon : Text → Text
trim_colon [] = []
trim_colon (c ∷ []) = if c == b':' then [] else c ∷ []
trim_colon (c ∷ d ∷ s) = c ∷ trim_colon (d ∷ s)

abbrev coded : Text → Text → Args
coded runtime code = (codes "runtime", runtime) ∷ (codes "code", code) ∷ []

-- `idx > 0`: a colon that is not the first rune
abbrev code_colon : Option (Text × Text) → Option Args
code_colon (some (c ∷ before, after)) =
    if not (looks_like_runtime (trim_space (c ∷ before)))
    then none
    else some (coded (trim_space (c ∷ before)) (trim_single_leading_space after))
code_colon _ = none

abbrev code_lines : Option (Text × Text) → Text → Option Args
code_lines none text = code_colon (cut text (codes ":"))
code_lines (some (header, code)) text =
    if looks_like_runtime (trim_colon (trim_space header))
    then some (coded (trim_colon (trim_space header)) code)
    else code_colon (cut text (codes ":"))

abbrev code_colons : Option (Text × Text) → Text → Option Args
code_colons none text = code_lines (cut text (codes "\n")) text
code_colons (some (runtime, code)) text =
    if not (looks_like_runtime (trim_space runtime))
    then none
    else some (coded (trim_space runtime) (trim_single_leading_space code))

unfoldable pub parse_exec_code_args : Text → Option Args
unfolding cut trim_single_leading_space trim_colon
parse_exec_code_args args_text =
    let text = trim_space args_text in
    if is_empty_text text then none else code_colons (cut text (codes "::")) text

unfoldable pub parse_exec_file_args : Text → Option Args
parse_exec_file_args args_text =
    if not (looks_like_path (trim_space args_text))
    then none
    else some (one_arg (codes "path") (trim_space args_text))

abbrev run_file : Option Args → Option (Text × Args)
run_file none = none
run_file (some args) = some (codes "exec_file", args)

abbrev run_code : Option Args → Text → Option (Text × Args)
run_code (some args) args_text = some (codes "exec_code", args)
run_code none args_text = run_file (parse_exec_file_args args_text)

unfoldable pub parse_workbench_run_args : Text → Option (Text × Args)
unfolding parse_exec_code_args parse_exec_file_args
parse_workbench_run_args args_text = run_code (parse_exec_code_args args_text) args_text

abbrev user_added : List Text → Args
user_added [] = no_args
user_added (name ∷ []) = one_arg (codes "username") name
user_added (name ∷ password ∷ []) = (codes "username", name) ∷ (codes "password", password) ∷ []
user_added (provider ∷ name ∷ password ∷ rest) =
    (codes "provider", provider)
    ∷ (codes "username", name)
    ∷ (codes "password", trim_space (join (password ∷ rest) (codes " ")))
    ∷ []

unfoldable pub parse_user_add_args : Text → Args
parse_user_add_args args_text = user_added (fields (trim_space args_text))

abbrev provider_and : Text → Text → List Text → Args
provider_and one many [] = no_args
provider_and one many (f ∷ []) = one_arg one f
provider_and one many (f ∷ g ∷ fs) =
    (codes "provider", f) ∷ (many, trim_space (join (g ∷ fs) (codes " "))) ∷ []

unfoldable pub parse_user_delete_args : Text → Args
parse_user_delete_args args_text =
    provider_and (codes "username") (codes "username") (fields (trim_space args_text))

unfoldable pub parse_user_list_args : Text → Args
parse_user_list_args args_text =
    provider_and (codes "provider") (codes "pattern") (fields (trim_space args_text))

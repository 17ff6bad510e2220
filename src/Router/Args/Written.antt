-- ===== src/Router/Args/Written.antt =====
-- internal/router/router.go: the arguments of a command that writes a file.
use open_light.Base.{ℕ, true, false, none, some, [], ◌∷◌, ◌++◌, ◌≡◌, refl, ap, ◌∙◌, arith}
use open_light.Base.Text.{
  Text, codes, is_space, is_empty_text, strip_prefix, trim_left, trim_cons, trim_right, trim_space,
}
use open_light.Base.Text.Search.{cut}
use open_light.Base.Text.Trim.{NoSpace, trim_space-NoSpace}
use open_light.Router.Args.{looks_like_path, parse_file_write_args}

trim_right-cons :
    (c : ℕ) (t : Text) → trim_right t ≡ t → is_empty_text t ≡ false → trim_right (c ∷ t) ≡ c ∷ t
unfolding trim_right
trim_right-cons c [] h ne = cc
trim_right-cons c (d ∷ t) h ne = rw h (unfold trim_cons in refl)

trim_right-append :
    (w t : Text) → trim_right t ≡ t → is_empty_text t ≡ false → trim_right (w ++ t) ≡ w ++ t
trim_right-append [] t h ne = h
trim_right-append (c ∷ w) t h ne =
    trim_right-cons c (w ++ t) (trim_right-append w t h ne) (append_nonempty w)
  where
    append_nonempty : (v : Text) → is_empty_text (v ++ t) ≡ false
    append_nonempty [] = ne
    append_nonempty (d ∷ v) = refl

trim_space-line :
    (path content : Text)
    → NoSpace path
    → is_empty_text path ≡ false
    → trim_right content ≡ content
    → is_empty_text content ≡ false
    → trim_space (path ++ b'\n' ∷ content) ≡ path ++ b'\n' ∷ content
unfolding trim_space
trim_space-line [] content h np hc nc = cc
trim_space-line (c ∷ path) content h np hc nc =
    ap trim_right (first_kept (path ++ b'\n' ∷ content))
    ∙ trim_right-append (c ∷ path) (b'\n' ∷ content) (trim_right-cons b'\n' content hc nc) refl
  where
    first_kept : (t : Text) → trim_left (c ∷ t) ≡ c ∷ t
    first_kept t = rw (h.0, trim_left) refl

not_newline : (c : ℕ) (s : Text) → is_space c ≡ false → strip_prefix (c ∷ s) (codes "\n") ≡ none
unfolding is_space strip_prefix codes
not_newline c s h = ground arith

cut-line :
    (path content : Text)
    → NoSpace path
    → cut (path ++ b'\n' ∷ content) (codes "\n") ≡ some (path, content)
unfolding cut
cut-line [] content h = unfold strip_prefix codes in refl
cut-line (c ∷ path) content h =
    rw (not_newline c (path ++ b'\n' ∷ content) h.0, cut-line path content h.1, cut)

looks_like_path-empty : (path : Text) → looks_like_path path ≡ true → is_empty_text path ≡ false
unfolding looks_like_path trim_space trim_left trim_right
looks_like_path-empty [] h = cc
looks_like_path-empty (c ∷ path) h = refl

line_nonempty : (path content : Text) → is_empty_text (path ++ b'\n' ∷ content) ≡ false
line_nonempty [] content = refl
line_nonempty (c ∷ path) content = refl

-- The path on the first line and the content behind it are read back, where the path looks like one and
-- holds no white space, and the content is not empty and does not end in white space.
parse_file_write_args-line :
    (path content : Text)
    → NoSpace path
    → looks_like_path path ≡ true
    → trim_right content ≡ content
    → is_empty_text content ≡ false
    → parse_file_write_args (path ++ b'\n' ∷ content)
      ≡ some ((codes "path", path) ∷ (codes "content", content) ∷ [])
unfolding parse_file_write_args
parse_file_write_args-line path content h like hc nc = rw (
  trim_space-line path content h (looks_like_path-empty path like) hc nc,
  cut-line path content h,
  trim_space-NoSpace path h,
  like,
  line_nonempty path content,
)

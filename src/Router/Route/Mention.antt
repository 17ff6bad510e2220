-- ===== src/Router/Route/Mention.antt =====
-- internal/router/router.go: a command that is addressed to the bot, as Telegram writes it in a group.
use open_light.Base.{ℕ, true, false, [], ◌∷◌, ◌++◌, ◌≡◌, refl, sym, ap, ◌∙◌, arith, All-append}
use open_light.Base.Text.{Text, codes, strip_prefix, has_prefix, trim_prefix, trim_space, is_space}
use open_light.Base.Text.Search.{before_code}
use open_light.Base.Text.Trim.{NoSpace, Lacks, trim_space-NoSpace, strip_prefix-append}
use open_light.Base.Text.Fields.{fields-word}
use open_light.Router.Args.{normalize_route_command}
use open_light.Router.Commands.{route_command}
use open_light.Router.{slash}
use open_light.Router.Route.{route_slash}

before_code-found : (r : ℕ) (s t : Text) → Lacks r s → before_code r (s ++ r ∷ t) ≡ s
unfolding before_code
before_code-found r [] t h = ground arith
before_code-found r (c ∷ s) t h =
    rw (h.0, before_code) (ap (λ u. c ∷ u) (before_code-found r s t h.1))

before_code-Lacks : (r : ℕ) (s : Text) → Lacks r s → before_code r s ≡ s
unfolding before_code
before_code-Lacks r [] h = refl
before_code-Lacks r (c ∷ s) h = rw (h.0, before_code) (ap (λ u. c ∷ u) (before_code-Lacks r s h.1))

trim_prefix-append : (p s : Text) → trim_prefix (p ++ s) p ≡ s
unfolding trim_prefix
trim_prefix-append p s = rw (strip_prefix-append p s)

has_prefix-slash : (s : Text) → has_prefix (b'/' ∷ s) (codes "/") ≡ true
unfolding has_prefix strip_prefix codes
has_prefix-slash s = refl

trim_prefix-slash : (s : Text) → trim_prefix (b'/' ∷ s) (codes "/") ≡ s
unfolding trim_prefix strip_prefix codes
trim_prefix-slash s = refl

-- The command of a first field, with and without the name of the bot.
normalize_route_command-mention :
    (c bot : Text)
    → NoSpace c
    → NoSpace bot
    → Lacks b'@' c
    → normalize_route_command (b'/' ∷ c ++ b'@' ∷ bot) ≡ normalize_route_command (b'/' ∷ c)
unfolding normalize_route_command is_space
normalize_route_command-mention c bot hc hb at = rw (
  trim_space-NoSpace (b'/' ∷ c ++ b'@' ∷ bot)
      (refl, All-append (λ r. is_space r ≡ false) c (b'@' ∷ bot) hc (refl, hb)),
  trim_space-NoSpace (b'/' ∷ c) (refl, hc),
  trim_prefix-slash (c ++ b'@' ∷ bot),
  trim_prefix-slash c,
  before_code-found b'@' c bot at,
  before_code-Lacks b'@' c at,
)

route_slash-word :
    (w args : Text)
    → NoSpace w
    → route_slash (b'/' ∷ w ++ b' ' ∷ args)
      ≡ route_command (normalize_route_command (b'/' ∷ w)) (trim_space (b' ' ∷ args)) slash
unfolding route_slash is_space
route_slash-word w args hw = rw (
  has_prefix-slash (w ++ b' ' ∷ args),
  fields-word (b'/' ∷ w) args (refl, (refl, hw)),
  trim_prefix-append (b'/' ∷ w) (b' ' ∷ args),
)

-- The stage of slash commands, which the router asks first, decides "/command@bot arguments" as it
-- decides "/command arguments": the same skill with the same arguments, or none. The command holds no `@`,
-- and neither it nor the name of the bot holds white space. What later stages make of a text that this
-- one leaves open is not said.
pub route_slash-mention :
    (c bot args : Text)
    → NoSpace c
    → Lacks b'@' c
    → NoSpace bot
    → route_slash (b'/' ∷ c ++ b'@' ∷ bot ++ b' ' ∷ args) ≡ route_slash (b'/' ∷ c ++ b' ' ∷ args)
unfolding is_space
route_slash-mention c bot args hc at hb =
    route_slash-word (c ++ b'@' ∷ bot) args
      (All-append (λ r. is_space r ≡ false) c (b'@' ∷ bot) hc (refl, hb))
    ∙ ap (λ n. route_command n (trim_space (b' ' ∷ args)) slash)
        (normalize_route_command-mention c bot hc hb at)
    ∙ sym (route_slash-word c args hc)

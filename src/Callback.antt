-- ===== src/Callback.antt =====
-- internal/telegram/ui/callback/callback.go: the compact text of a button, "kind:target:extra".
pub mod RoundTrip
mod Examples
use open_light.Base.{ℕ, zero, suc, ◌+◌, ◌==◌, true, false, Option, none, some, List, [], ◌∷◌, ◌++◌}
use open_light.Base.Int.{ℤ, pos, negsuc}
use open_light.Base.Text.{Text, trim_space, codes}
use open_light.Base.Decimal.{itoa, parse_int}

pub record Action : Type 0 where
  pub kind : Text
  pub target : Text
  pub extra : Text

abbrev pub colon : ℕ
colon = b':'

-- strings.SplitN by one rune into `n + 1` parts at most; `cur` is the part that is being read
unfoldable pub split_n_from : ℕ → Text → Text → List Text
split_n_from n [] cur = cur ∷ []
split_n_from zero (c ∷ s) cur = (cur ++ c ∷ s) ∷ []
split_n_from (suc n) (c ∷ s) cur = elim (c == colon) [
  | true ↦ cur ∷ split_n_from n s []
  | false ↦ split_n_from (suc n) s (cur ++ c ∷ [])
]

-- The three assignments to the fields; SplitN always returns a first part.
unfoldable pub of_parts : List Text → Option Action
of_parts [] = none
of_parts (kind ∷ []) = some (record { kind = kind; target = []; extra = [] })
of_parts (kind ∷ target ∷ []) = some (record { kind = kind; target = target; extra = [] })
of_parts (kind ∷ target ∷ extra ∷ rest) =
    some (record { kind = kind; target = target; extra = extra })

decode_trimmed : Text → Option Action
unfolding split_n_from of_parts
decode_trimmed [] = none
decode_trimmed (c ∷ s) = of_parts (split_n_from 2 (c ∷ s) [])

-- `none` is ErrInvalid.
unfoldable pub decode : Text → Option Action
unfolding decode_trimmed trim_space
decode data_text = decode_trimmed (trim_space data_text)

-- `if part != "" { out += ":" + part }`
abbrev pub suffix : Text → Text
suffix [] = []
suffix (c ∷ s) = colon ∷ c ∷ s

unfoldable pub encode : Action → Text
encode a = (a.kind ++ suffix a.target) ++ suffix a.extra

unfoldable pub home : Text
unfolding encode codes
home = encode (record { kind = codes "home"; target = []; extra = [] })

unfoldable pub group : Text → Text
unfolding encode
group key = encode (record { kind = b'g' ∷ []; target = key; extra = [] })

unfoldable pub skill : Text → Text
unfolding encode
skill name = encode (record { kind = b's' ∷ []; target = name; extra = [] })

unfoldable pub skill_with_ref : Text → Text → Text
unfolding encode
skill_with_ref name ref = encode (record { kind = b's' ∷ []; target = name; extra = ref })

unfoldable pub action_for : Text → Text → Text
unfolding encode
action_for name target = encode (record { kind = b'a' ∷ []; target = name; extra = target })

unfoldable pub quick : Text → Text
unfolding encode
quick id = encode (record { kind = b'q' ∷ []; target = id; extra = [] })

unfoldable pub back : Text → Text
unfolding encode
back dest = encode (record { kind = b'b' ∷ []; target = dest; extra = [] })

unfoldable pub back_to_group : Text → Text
unfolding encode
back_to_group key = encode (record { kind = b'b' ∷ []; target = b'g' ∷ []; extra = key })

unfoldable pub page : Text → ℕ → Text
unfolding encode itoa
page group_key n = encode (record { kind = b'p' ∷ []; target = group_key; extra = itoa n })

unfoldable pub confirm : Text → Text
unfolding encode
confirm token = encode (record { kind = b'c' ∷ []; target = token; extra = [] })

unfoldable pub cancel : Text → Text
unfolding encode
cancel token = encode (record { kind = b'x' ∷ []; target = token; extra = [] })

natural : Option ℤ → ℕ
natural none = 0
natural (some (pos n)) = n
natural (some (negsuc n)) = 0

unfoldable pub page_number : Action → ℕ
unfolding natural parse_int trim_space
page_number a = natural (parse_int (trim_space a.extra))

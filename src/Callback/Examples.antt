-- ===== src/Callback/Examples.antt =====
-- Buttons at concrete values.
use open_light.Base.{inl, ◌≡◌, refl, [], ◌∷◌, some, arith}
use open_light.Base.Text.{is_space, codes}
use open_light.Callback.{Action, decode, encode, page, page_number, group, back_to_group}
use open_light.Callback.RoundTrip.{IsClean, decode-encode, page_number-page}

group_test : group (codes "system") ≡ codes "g:system"
unfolding group codes
group_test = refl

back_test :
    decode (back_to_group (codes "files"))
    ≡ some (record { kind = codes "b"; target = codes "g"; extra = codes "files" })
unfolding decode back_to_group codes
back_test = refl

-- An extra part without a target is read as the target.
lossy :
    decode (encode (record { kind = 1 ∷ []; target = []; extra = 2 ∷ [] }))
    ≡ some (record { kind = 1 ∷ []; target = 2 ∷ []; extra = [] })
unfolding decode encode
lossy = refl

abbrev restart : Action
restart = record { kind = b'a' ∷ []; target = b'r' ∷ []; extra = b'1' ∷ b':' ∷ b'2' ∷ [] }

restart-IsClean : IsClean restart
unfolding is_space
restart-IsClean = record {
  kind_ne_nil = λ e. cc;
  kind_word = (refl, tt);
  kind_lacks = (refl, tt);
  target_word = (refl, tt);
  target_lacks = (refl, tt);
  extra_word = (refl, (refl, (refl, tt)));
  extra_last = inl (λ e. cc);
}

decode-encode_example : decode (encode restart) ≡ some restart
decode-encode_example = decode-encode restart restart-IsClean

page_number-page_example :
    (a : Action) × (decode (page (b'g' ∷ []) 12) ≡ some a)
    × (a.kind ≡ b'p' ∷ [])
    × (a.target ≡ b'g' ∷ [])
    × (page_number a ≡ 12)
page_number-page_example =
    page_number-page (b'g' ∷ []) 12 (λ e. cc) (unfold is_space in (refl, tt)) (refl, tt)
      (omega arith)

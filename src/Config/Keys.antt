-- ===== src/Config/Keys.antt =====
-- linux-c/config-demo/file_source.c: the four keys of a configuration file.
use snippet.Base.{true, false, Bool-cases, inl, inr, ◌≡◌, refl, sym, subst, [], ◌∷◌, ◌==◌, ==_iff}
use snippet.Posix.{codes}
use snippet.Config.Text.{Text, text_eq}

pub text_eq_sound : (a b : Text) → text_eq a b ≡ true → a ≡ b
unfolding text_eq
text_eq_sound [] [] e = refl
text_eq_sound [] (y ∷ b) e = cc
text_eq_sound (x ∷ a) [] e = cc
text_eq_sound (x ∷ a) (y ∷ b) e = elim (Bool-cases (x == y)) [
  | inl same ↦ let e' : text_eq a b ≡ true = cc in cc ((==_iff x y).0 same, text_eq_sound a b e')
  | inr other ↦ cc
]

-- A key is one of the four, or equal to none.
pub key_cases :
    (P : Text → Type 0)
    → P (codes "address")
    → P (codes "port")
    → P (codes "log_level")
    → P (codes "debug")
    → ((key : Text)
        → text_eq key (codes "address") ≡ false
        → text_eq key (codes "port") ≡ false
        → text_eq key (codes "log_level") ≡ false
        → text_eq key (codes "debug") ≡ false
        → P key)
    → (key : Text) → P key
key_cases P a p l d other key = elim (Bool-cases (text_eq key (codes "address"))) [
  | inl it ↦ subst P (sym (text_eq_sound key _ it)) a
  | inr no_a ↦ elim (Bool-cases (text_eq key (codes "port"))) [
    | inl it ↦ subst P (sym (text_eq_sound key _ it)) p
    | inr no_p ↦ elim (Bool-cases (text_eq key (codes "log_level"))) [
      | inl it ↦ subst P (sym (text_eq_sound key _ it)) l
      | inr no_l ↦ elim (Bool-cases (text_eq key (codes "debug"))) [
        | inl it ↦ subst P (sym (text_eq_sound key _ it)) d
        | inr no_d ↦ other key no_a no_p no_l no_d
      ]
    ]
  ]
]

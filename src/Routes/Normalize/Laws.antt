-- ===== src/Routes/Normalize/Laws.antt =====
-- The normal form of a path prefix, and what a second pass makes of it.
use caddy_reverse_proxy.Common.{ℕ, ◌≡◌, refl, ap, sym, ◌∙◌, Bool, true, false, [], ◌∷◌, ◌++◌}
use mathlib.Core.List.{append_assoc}
use caddy_reverse_proxy.Text.{Text, codes, is_space, trim_left, trim_right, trim, trim_space}
use caddy_reverse_proxy.Routes.Normalize.{is_slash, normalize_path_prefix}

module _ (p : ℕ → Bool) where
  -- Trimming on the right looks at the last character first.
  trim_right-kept : (s : Text) (c : ℕ) → p c ≡ false → trim_right p (s ++ c ∷ []) ≡ s ++ c ∷ []
  unfolding trim_right
  trim_right-kept [] c h = rw h refl
  trim_right-kept (d ∷ []) c h = rw h refl
  trim_right-kept (d ∷ e ∷ s) c h = rw (trim_right-kept (e ∷ s) c h) refl

  trim_right-cut : (s : Text) (c : ℕ) → p c ≡ true → trim_right p (s ++ c ∷ []) ≡ trim_right p s
  unfolding trim_right
  trim_right-cut [] c h = rw h refl
  trim_right-cut (d ∷ s) c h = rw (trim_right-cut s c h) refl

trim_space-kept :
    (s : Text) (c : ℕ) → is_space c ≡ false → trim_space (b'/' ∷ s ++ c ∷ []) ≡ b'/' ∷ s ++ c ∷ []
unfolding trim_space trim trim_left
trim_space-kept s c h = trim_right-kept is_space (b'/' ∷ s) c h

trim_space-cut :
    (s : Text) (c : ℕ)
    → is_space c ≡ false
    → trim_space (b'/' ∷ s ++ c ∷ [] ++ codes " ") ≡ b'/' ∷ s ++ c ∷ []
unfolding trim_space trim trim_left
trim_space-cut s c h =
    trim_right-cut is_space (b'/' ∷ s ++ c ∷ []) 32 refl ∙ trim_right-kept is_space (b'/' ∷ s) c h

-- For a path that starts with a slash and ends with neither a space nor a slash: with a space and a
-- slash behind it, one pass of normalizePathPrefix leaves the space, and a second pass takes it
-- away; the path itself stays as it is. So the function is not idempotent, and two prefixes that one
-- pass keeps apart are one prefix after the next.
pub normalize_path_prefix-twice :
    (s : Text) (c : ℕ)
    → is_space c ≡ false
    → is_slash c ≡ false
    → (normalize_path_prefix (b'/' ∷ s ++ c ∷ [] ++ codes " /") ≡ b'/' ∷ s ++ c ∷ [] ++ codes " ")
      × (normalize_path_prefix (b'/' ∷ s ++ c ∷ [] ++ codes " ") ≡ b'/' ∷ s ++ c ∷ [])
      × (normalize_path_prefix (b'/' ∷ s ++ c ∷ []) ≡ b'/' ∷ s ++ c ∷ [])
unfolding normalize_path_prefix
normalize_path_prefix-twice s c space slash =
    let path = b'/' ∷ s ++ c ∷ [] in
    let blank = path ++ codes " " in
    (
      ap normalize_path_prefix (sym (append_assoc path (codes " ") (codes "/")))
          ∙ ap (trim_right is_slash) (trim_space-kept (s ++ c ∷ [] ++ codes " ") b'/' refl)
          ∙ trim_right-cut is_slash blank b'/' refl
          ∙ trim_right-kept is_slash path 32 refl,
      ap (trim_right is_slash) (trim_space-cut s c space)
          ∙ trim_right-kept is_slash (b'/' ∷ s) c slash,
      ap (trim_right is_slash) (trim_space-kept s c space)
          ∙ trim_right-kept is_slash (b'/' ∷ s) c slash,
    )

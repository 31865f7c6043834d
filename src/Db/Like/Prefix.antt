-- ===== src/Db/Like/Prefix.antt =====
-- A key that is escaped by `escapeLike` and followed by `%` matches by its prefix.
use gha_cache_server.Base.{
  ℕ, ◌≡◌, refl, ap, inl, inr, true, false, ◌&&◌, [], ◌∷◌, ◌++◌, map, ◌∙◌, ◌==◌, ==_iff, Bool-cases,
  Bytes, has_prefix,
}
use gha_cache_server.Db.Like.{backslash, escape_like, any_suffix, this_byte, like_from, like}

module _ (fold : ℕ → ℕ) where
  -- Each byte of the key, escaped or not, stands for itself.
  like_from-escape_like :
      (c : ℕ) (s r t : Bytes)
      → like_from fold false (escape_like (c ∷ s) ++ r) t
        ≡ this_byte fold c (like_from fold false (escape_like s ++ r)) t
  unfolding escape_like like_from
  like_from-escape_like c s r t = elim (Bool-cases (c == backslash)) [
    | inl e ↦ rw (e, (==_iff c backslash).0 e)
    | inr n1 ↦ elim (Bool-cases (c == b'%')) [
      | inl e ↦ rw (n1, e, (==_iff c b'%').0 e)
      | inr n2 ↦ elim (Bool-cases (c == b'_')) [
        | inl e ↦ rw (n1, n2, e, (==_iff c b'_').0 e)
        | inr n3 ↦ rw (n1, n2, n3) (rw (n1, n2, n3, like_from))
      ]
    ]
  ]

  any_suffix-is_empty : (t : Bytes) → any_suffix (like_from fold false []) t ≡ true
  unfolding like_from
  any_suffix-is_empty [] = refl
  any_suffix-is_empty (x ∷ t) = any_suffix-is_empty t

  -- The pattern that `FindPrefixedCacheEntry` sends for a key matches a text exactly if the text
  -- begins with the key up to the database's case folding `fold` of each of their bytes, whatever
  -- `\`, `%` and `_` the key holds.
  pub like-escape_like :
      (p t : Bytes)
      → like fold (escape_like p ++ b'%' ∷ []) t ≡ has_prefix (map fold p) (map fold t)
  unfolding like has_prefix
  like-escape_like [] t = unfold escape_like like_from in any_suffix-is_empty t
  like-escape_like (c ∷ p) [] = like_from-escape_like c p (b'%' ∷ []) []
  like-escape_like (c ∷ p) (x ∷ t) =
      like_from-escape_like c p (b'%' ∷ []) (x ∷ t)
      ∙ ap (λ b. fold c == fold x && b) (like-escape_like p t)

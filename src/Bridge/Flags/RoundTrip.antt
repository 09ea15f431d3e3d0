-- ===== src/Bridge/Flags/RoundTrip.antt =====
-- The value that the bridge keeps in Redis is read back (cmd/bridge/state.go).
use vault.Common.{ℕ, ◌≡◌, ◌≢◌, refl, arith, none, some, List, [], ◌∷◌, ◌++◌, sym, ap, ◌∙◌}
use mathlib.Core.List.{append_assoc}
use vault.Common.Lists.{All}
use vault.Bridge.Flags.{
  Render, separator, split_last, encode_flag_value, parse_flag_value, parse_rest, parse_head,
}

split_last-clean : (ys : List ℕ) → All (λ c. c ≢ separator) ys → split_last ys ≡ none
unfolding split_last
split_last-clean [] clean = refl
split_last-clean (y ∷ ys) (c, cs) = ground (arith, split_last-clean ys cs)

split_last-append :
    (xs ys : List ℕ)
    → All (λ c. c ≢ separator) ys
    → split_last (xs ++ separator ∷ ys) ≡ some (xs, ys)
unfolding split_last
split_last-append [] ys clean = ground (arith, split_last-clean ys clean)
split_last-append (x ∷ xs) ys clean = ground (arith, split_last-append xs ys clean)

-- What fmt and time promise of the texts of one score and one instant: they hold no '|', and are
-- read back, the instant to the second.
pub record IsReadable (render : Render) (score at whole : ℕ) : Type 0 where
  pub clean_score : All (λ c. c ≢ separator) (render.score score)
  pub clean_instant : All (λ c. c ≢ separator) (render.instant at)
  pub score_back : render.scan_score (render.score score) ≡ score
  pub instant_back : render.parse_instant (render.instant at) ≡ whole

parse_rest-some :
    (render : Render) (head ts : List ℕ) (p : List ℕ × List ℕ)
    → split_last head ≡ some p
    → parse_rest render (some (head, ts))
      ≡ some (p.0, render.scan_score p.1, render.parse_instant ts)
unfolding split_last
parse_rest-some render [] ts p h = absurd (ground arith)
parse_rest-some render (c ∷ cs) ts p h = ap (parse_head render ts) h

-- A stored flag is read back whatever its reason holds, pipes included, with its score and the
-- instant to the second.
parse_flag_value-encode :
    (render : Render) (reason : List ℕ) (score at whole : ℕ)
    → IsReadable render score at whole
    → parse_flag_value render (encode_flag_value render reason score at)
      ≡ some (reason, score, whole)
unfolding parse_flag_value encode_flag_value
parse_flag_value-encode render reason score at whole r =
    let front = reason ++ separator ∷ render.score score in
    let shape =
      append_assoc reason (separator ∷ render.score score) (separator ∷ render.instant at) in
    ap (λ value. parse_rest render (split_last value)) (sym shape)
    ∙ ap (parse_rest render) (split_last-append front (render.instant at) r.clean_instant)
    ∙ parse_rest-some render front (render.instant at) (reason, render.score score)
        (split_last-append reason (render.score score) r.clean_score)
    ∙ ground (arith, r.score_back, r.instant_back)

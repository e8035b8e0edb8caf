-- ===== src/Archive/Database/Quoted.antt =====
-- What stands in quotes in a statement (timeseries/src/questdb/series.rs and periods.rs).
use rs_smarthome_nodes.Base.{
  ℕ, ◌≡◌, sym, ap, ◌∙◌, subst, false, List, [], ◌∷◌, ◌++◌, ◌==◌, append-nil, append_assoc,
}
use rs_smarthome_nodes.Base.Bytes.{Bytes}
use rs_smarthome_nodes.Base.Text.{split, split-plain, split-append, split-sep, Lacks}

module _ (P : Bytes → Type 0) where
  -- Every second piece is quoted; the last one is not.
  abbrev pub Inside : List Bytes → Type 0
  Inside [] = ⊥
  Inside (p ∷ []) = Unit {0}
  Inside (p ∷ q ∷ ps) = P q × Inside ps

  -- What is quoted in a statement holds.
  abbrev pub IsQuoted : Bytes → Type 0
  IsQuoted s = Inside (split 39 s)

  -- A text that may stand before any statement.
  unfoldable pub Opens : Bytes → Type 0
  Opens a = (b : Bytes) → IsQuoted b → IsQuoted (a ++ b)

  Inside-first : (p q : Bytes) (ps : List Bytes) → Inside (p ∷ ps) → Inside (q ∷ ps)
  Inside-first p q [] h = tt
  Inside-first p q (r ∷ ps) h = h

  Opens-char : (c : ℕ) → (c == 39) ≡ false → Opens (c ∷ [])
  unfolding Opens
  Opens-char c h b q =
      let (p, ps, e, more) = split-plain 39 c b h in
      subst Inside (sym more) (Inside-first p (c ∷ p) ps (subst Inside e q))

  pub Opens-append : (a b : Bytes) → Opens a → Opens b → Opens (a ++ b)
  unfolding Opens
  Opens-append a b h k c q = subst IsQuoted (sym (append_assoc a b c)) (h (b ++ c) (k c q))

  pub Opens-plain : (a : Bytes) → Lacks 39 a → Opens a
  unfolding Opens
  Opens-plain [] h b q = q
  Opens-plain (c ∷ a) (h, hs) b q = Opens-char c h (a ++ b) (Opens-plain a hs b q)

  pub Opens-quoted : (x : Bytes) → Lacks 39 x → P x → Opens (39 ∷ (x ++ 39 ∷ []))
  unfolding Opens
  Opens-quoted x h p b q =
      subst IsQuoted (sym (ap (◌∷◌ 39) (append_assoc x (39 ∷ []) b))) (
        subst Inside (sym (split-sep 39 (x ++ 39 ∷ b) ∙ ap (◌∷◌ []) (split-append 39 x b h)))
          (p, q))

  pub Opens-IsQuoted : (a : Bytes) → Opens a → IsQuoted a
  unfolding Opens
  Opens-IsQuoted a h = subst IsQuoted (append-nil a) (h [] (unfold split in tt))

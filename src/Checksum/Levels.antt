-- ===== src/Checksum/Levels.antt =====
-- crates/blackbox-core/src/checksum.rs: which levels the checksum text is made of.
use k_blackbox.Base.{
  zero, suc, take_all, reverse, ℕ, ◌≤◌, ◌<◌, ◌≡◌, sym, ap, ◌∙◌, List, [], ◌∷◌, ◌++◌, take,
  take-take, length, length-append, length-take, append-nil, append_assoc, arith, some,
}
use k_blackbox.Decimal.{Decimal, decimal_ord, Text, Level}
use k_blackbox.Orderbook.{Orderbook, truncate, asks_iter, bids_iter_rev, asks_vec, bids_vec, depth}
use k_blackbox.Orderbook.Invariant.{IsValid}
use k_blackbox.Orderbook.Truncate.{truncate-eq-limit}
use k_blackbox.Precision.{format_fixed}
use k_blackbox.Precision.Canonical.{length-format_fixed}
use k_blackbox.Checksum.{push_levels, build_checksum_string}

module _ {D : Type 0} ⦃d : Decimal D⦄ where
  -- The tokens of the levels, one after the other.
  pub level_text : ℕ → ℕ → List (Level D) → Text
  level_text pp qp [] = []
  level_text pp qp ((p, q) ∷ ls) = format_fixed p pp ++ (format_fixed q qp ++ level_text pp qp ls)

  push_levels-eq :
      (pp qp : ℕ) (acc : Text) (ls : List (Level D))
      → push_levels pp qp acc ls ≡ acc ++ level_text pp qp ls
  unfolding push_levels level_text
  push_levels-eq pp qp acc [] = sym (append-nil acc)
  push_levels-eq pp qp acc ((p, q) ∷ ls) =
      push_levels-eq pp qp ((acc ++ format_fixed p pp) ++ format_fixed q qp) ls ∙ simp append_assoc

  -- The text is that of the ten lowest asks upwards, then that of the ten highest bids downwards,
  -- which are the levels that the views limited to ten show.
  pub build_checksum_string-eq :
      (book : Orderbook D) (pp qp : ℕ)
      → build_checksum_string book pp qp
        ≡ level_text pp qp (asks_vec book (some 10)) ++ level_text pp qp (bids_vec book (some 10))
  unfolding build_checksum_string asks_vec bids_vec asks_iter bids_iter_rev
  build_checksum_string-eq book pp qp =
      push_levels-eq pp qp _ (take 10 (bids_iter_rev book))
      ∙ ap (λ x. x ++ level_text pp qp (take 10 (bids_iter_rev book)))
          (push_levels-eq pp qp [] (take 10 (asks_iter book)))

  -- The views limited to ten are the same after a cut to ten levels or more.
  asks_vec-truncate :
      (n : ℕ) (book : Orderbook D)
      → 10 ≤ n
      → IsValid book
      → (asks_vec (truncate n book) (some 10) ≡ asks_vec book (some 10))
        × (bids_vec (truncate n book) (some 10) ≡ bids_vec book (some 10))
  unfolding asks_vec bids_vec
  asks_vec-truncate n book h v =
      let e = truncate-eq-limit n book v in
      (ap (take 10) e.0 ∙ take-take 10 n _ h, ap (take 10) e.1 ∙ take-take 10 n _ h)

  -- Cutting a valid book to ten levels or more does not change its checksum text.
  pub build_checksum_string-truncate :
      (n : ℕ) (book : Orderbook D) (pp qp : ℕ)
      → 10 ≤ n
      → IsValid book
      → build_checksum_string (truncate n book) pp qp ≡ build_checksum_string book pp qp
  build_checksum_string-truncate n book pp qp h v =
      let e = asks_vec-truncate n book h v in
      build_checksum_string-eq (truncate n book) pp qp
      ∙ ap (λ x. level_text pp qp x ++ level_text pp qp (bids_vec (truncate n book) (some 10))) e.0
      ∙ ap (λ x. level_text pp qp (asks_vec book (some 10)) ++ level_text pp qp x) e.1
      ∙ sym (build_checksum_string-eq book pp qp)

  length-level_text_cons :
      (pp qp : ℕ) (p q : D) (ls : List (Level D))
      → length (level_text pp qp ls) < length (level_text pp qp ((p, q) ∷ ls))
  unfolding level_text
  length-level_text_cons pp qp p q ls = omega (
    arith,
    length-append (format_fixed p pp) (format_fixed q qp ++ level_text pp qp ls),
    length-append (format_fixed q qp) (level_text pp qp ls),
    length-format_fixed p pp,
  )

  length-level_text-take_le :
      (pp qp m n : ℕ) (ls : List (Level D))
      → m ≤ n
      → length (level_text pp qp (take m ls)) ≤ length (level_text pp qp (take n ls))
  unfolding level_text
  length-level_text-take_le pp qp zero n ls h = omega arith
  length-level_text-take_le pp qp (suc m) zero ls h = absurd (omega arith)
  length-level_text-take_le pp qp (suc m) (suc n) [] h = omega arith
  length-level_text-take_le pp qp (suc m) (suc n) ((p, q) ∷ ls) h = omega (
    arith,
    length-append (format_fixed p pp) (format_fixed q qp ++ level_text pp qp (take m ls)),
    length-append (format_fixed q qp) (level_text pp qp (take m ls)),
    length-append (format_fixed p pp) (format_fixed q qp ++ level_text pp qp (take n ls)),
    length-append (format_fixed q qp) (level_text pp qp (take n ls)),
    length-level_text-take_le pp qp m n ls (omega arith),
  )

  length-level_text-take_lt :
      (pp qp m n : ℕ) (ls : List (Level D))
      → m < n
      → m < length ls
      → length (level_text pp qp (take m ls)) < length (level_text pp qp (take n ls))
  unfolding level_text
  length-level_text-take_lt pp qp m zero ls h k = absurd (omega arith)
  length-level_text-take_lt pp qp m (suc n) [] h k = absurd (omega arith)
  length-level_text-take_lt pp qp zero (suc n) ((p, q) ∷ ls) h k =
      omega (arith, length-level_text_cons pp qp p q (take n ls))
  length-level_text-take_lt pp qp (suc m) (suc n) ((p, q) ∷ ls) h k = omega (
    arith,
    length-append (format_fixed p pp) (format_fixed q qp ++ level_text pp qp (take m ls)),
    length-append (format_fixed q qp) (level_text pp qp (take m ls)),
    length-append (format_fixed p pp) (format_fixed q qp ++ level_text pp qp (take n ls)),
    length-append (format_fixed q qp) (level_text pp qp (take n ls)),
    length-level_text-take_lt pp qp m n ls (omega arith) (omega arith),
  )

  take_short : (n : ℕ) (ls : List (Level D)) → n ≤ 10 → take 10 (take n ls) ≡ take n ls
  take_short n ls h = take_all 10 (take n ls) (omega (arith, length-take n ls))

  -- Cutting a valid book to fewer than ten levels, when it has more asks than that, shortens the
  -- checksum text.
  pub build_checksum_string_cut :
      (n : ℕ) (book : Orderbook D) (pp qp : ℕ)
      → n < 10
      → n < (depth book).0
      → IsValid book
      → length (build_checksum_string (truncate n book) pp qp)
        < length (build_checksum_string book pp qp)
  unfolding depth asks_vec bids_vec
  build_checksum_string_cut n book pp qp h k v =
      let e = truncate-eq-limit n book v in
      let asks = ap (take 10) e.0 ∙ take_short n book.asks (omega arith) in
      let bids = ap (take 10) e.1 ∙ take_short n (reverse book.bids) (omega arith) in
      rw
        (
          build_checksum_string-eq (truncate n book) pp qp,
          build_checksum_string-eq book pp qp,
          asks,
          bids,
          length-append (level_text pp qp (take n book.asks))
              (level_text pp qp (take n (reverse book.bids))),
          length-append,
        )
        (omega (
          arith,
          length-level_text-take_lt pp qp n 10 book.asks h k,
          length-level_text-take_le pp qp n 10 (reverse book.bids) (omega arith),
        ))

-- ===== src/Http/Top.antt =====
-- crates/blackbox-server/src/http.rs: how the two book routes compare.
use k_blackbox.Base.{
  ℕ, zero, suc, ◌≡◌, refl, sym, ap, ◌∙◌, List, [], ◌∷◌, ◌++◌, map, reverse, reverse-cons, head?,
  get_last?, take, Option, none, some, String,
}
use k_blackbox.Decimal.{Decimal}
use k_blackbox.DashMap.{get}
use k_blackbox.Orderbook.{Orderbook, best_bid, best_ask, bids_vec, asks_vec}
use k_blackbox.State.{AppState}
use k_blackbox.Http.{book_top_handler, book_handler, top_of, book_of, map_option, level_text}

module _ {A : Type 0} where
  head?-append : (xs ys : List A) (x : A) → head? ((xs ++ x ∷ []) ++ ys) ≡ head? (xs ++ x ∷ [])
  head?-append [] ys x = refl
  head?-append (z ∷ xs) ys x = refl

  pub head?-reverse : (xs : List A) → head? (reverse xs) ≡ get_last? xs
  head?-reverse [] = refl
  head?-reverse (x ∷ []) = refl
  head?-reverse (x ∷ y ∷ ys) =
      ap head? (reverse-cons x (y ∷ ys))
      ∙ ap (λ r. head? (r ++ x ∷ [])) (reverse-cons y ys)
      ∙ head?-append (reverse ys) (x ∷ []) y
      ∙ ap head? (sym (reverse-cons y ys))
      ∙ head?-reverse (y ∷ ys)

  head?-map : {B : Type 0} (f : A → B) (xs : List A) → head? (map f xs) ≡ map_option f (head? xs)
  head?-map f [] = refl
  head?-map f (x ∷ xs) = refl

  head?-take : (n : ℕ) (xs : List A) → head? (take (suc n) xs) ≡ head? xs
  head?-take n [] = refl
  head?-take n (x ∷ xs) = refl

-- A limit that lets at least one level through.
abbrev pub IsLimit : Option ℕ → Type 0
IsLimit none = Unit
IsLimit (some zero) = ⊥
IsLimit (some (suc n)) = Unit

module _ {D : Type 0} ⦃d : Decimal D⦄ where
  heads :
      (symbol : String) (limit : Option ℕ) (o : Option (Orderbook D))
      → IsLimit limit
      → ((book_of symbol limit o).0 ≡ (top_of symbol o).0)
        × (head? (book_of symbol limit o).1.bids ≡ (top_of symbol o).1.best_bid)
        × (head? (book_of symbol limit o).1.asks ≡ (top_of symbol o).1.best_ask)
  unfolding bids_vec asks_vec best_bid best_ask
  heads symbol limit none k = (refl, refl, refl)
  heads symbol none (some book) k = (
    refl,
    head?-map level_text (reverse book.bids) ∙ ap (map_option level_text) (head?-reverse book.bids),
    head?-map level_text book.asks,
  )
  heads symbol (some zero) (some book) k = absurd k
  heads symbol (some (suc n)) (some book) k = (
    refl,
    head?-map level_text (take (suc n) (reverse book.bids))
        ∙ ap (map_option level_text) (head?-take n (reverse book.bids) ∙ head?-reverse book.bids),
    head?-map level_text (take (suc n) book.asks)
        ∙ ap (map_option level_text) (head?-take n book.asks),
  )

module _ {D F : Type 0} ⦃d : Decimal D⦄ where
  -- Whatever the limit, if it is not zero, the first bid and the first ask of `/book/:symbol` are the
  -- best bid and the best ask of `/book/:symbol/top`, and the two routes answer with the same status.
  pub book_handler-top :
      (symbol : String) (limit : Option ℕ) (s : AppState D F)
      → IsLimit limit
      → ((book_handler symbol limit s).0 ≡ (book_top_handler symbol s).0)
        × (head? (book_handler symbol limit s).1.bids ≡ (book_top_handler symbol s).1.best_bid)
        × (head? (book_handler symbol limit s).1.asks ≡ (book_top_handler symbol s).1.best_ask)
  unfolding book_handler book_top_handler
  book_handler-top symbol limit s k = heads symbol limit (get symbol s.orderbooks) k

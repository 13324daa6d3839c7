-- ===== src/Crawl/Fetch/Agents.antt =====
-- The choice of a user agent in src/ingestion/crawl-fetch-retry.ts.
use ranking.Prelude.{
  ℕ, zero, suc, ◌%◌, ◌<◌, ◌≡◌, ◌⊎◌, inl, inr, true, false, is_empty, refl, some, List, [], ◌∷◌,
  arith, length, get_elem?,
}
use mathlib.Core.List.{Memᴰ}
use ranking.Prelude.Texts.{Text}
use ranking.Crawl.Fetch.{pick_crawl_user_agent, hash_from}

get_elem?-Mem :
    (i : ℕ) (xs : List Text) → i < length xs → (a : Text) × (get_elem? xs i ≡ some a) × Memᴰ a xs
get_elem?-Mem i [] h = absurd (omega arith)
get_elem?-Mem zero (x ∷ xs) h = (x, refl, Memᴰ.head refl)
get_elem?-Mem (suc i) (x ∷ xs) h =
    let (a, e, m) = get_elem?-Mem i xs (omega arith) in (a, e, Memᴰ.tail m)

-- The agent that is picked is never undefined: it is one of the pool if this is not empty, and the
-- default if it is.
pub pick_crawl_user_agent-Mem :
    (pool : List Text) (default seed : Text)
    → (a : Text) × (pick_crawl_user_agent pool default seed ≡ some a)
      × ((is_empty pool ≡ true × a ≡ default) ⊎ (is_empty pool ≡ false × Memᴰ a pool))
unfolding pick_crawl_user_agent
pick_crawl_user_agent-Mem [] default seed = (default, refl, inl (refl, refl))
pick_crawl_user_agent-Mem (p ∷ pool) default seed =
    let (a, e, m) = get_elem?-Mem (hash_from 0 seed % length (p ∷ pool)) (p ∷ pool) (omega arith) in
    (a, e, inr (refl, m))

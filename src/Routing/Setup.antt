-- ===== src/Routing/Setup.antt =====
-- What `New` sets up, and when the cache it makes is synchronized.
use ducks.Prelude.{
  String, ◌==◌, ◌≡◌, ◌≢◌, ◌↔◌, refl, Bool, true, false, Option, none, some, arith, eq_iff,
  if◌then◌else◌,
}
use ducks.Schema.{Schema}
use ducks.Routing.{Kit, SubCache, Options, or_else, new_options, wait_for_cache_sync, and_wait}

kept : {A : Type 0} (o : Option A) (a b : A) → or_else (or_else o a) b ≡ or_else o a
kept none a b = refl
kept (some c) a b = refl

address_given : (a : String) → (if a == "" then "0" else a) ≢ ""
address_given a e = ground (arith, eq_iff a "", eq_iff "0" "")

address_kept : (a : String) → a ≢ "" → (if a == "" then "0" else a) ≡ a
address_kept a h = ground (arith, eq_iff a "")

-- A sub-manager elects no leader, has an address for its metrics, and its options are complete: to
-- make options of them again, for whatever scheme, changes nothing.
pub new_options_lem :
    {Scheme : Type 0} (scheme other : Scheme) (opts : Options Scheme)
    → ((new_options scheme opts).leader_election ≡ false)
      × ((new_options scheme opts).bind_address ≢ "")
      × (new_options other (new_options scheme opts) ≡ new_options scheme opts)
unfolding new_options
new_options_lem {Scheme} scheme other opts = (
  refl,
  address_given opts.bind_address,
  complete (kept opts.scheme scheme other) (kept opts.skip_name_validation true true)
      (address_kept _ (address_given opts.bind_address)),
)
  where
    complete :
        {a b : Option Scheme} {x y : Option Bool} {m n : String}
        → a ≡ b
        → x ≡ y
        → m ≡ n
        → ◌≡◌ {A = Options Scheme}
            (record {
              scheme = a;
              skip_name_validation = x;
              bind_address = m;
              leader_election = false;
            })
            (record {
              scheme = b;
              skip_name_validation = y;
              bind_address = n;
              leader_election = false;
            })
    complete e f g = cc (e, f, g)

module _ (s : Schema) (k : Kit) where
  -- The cache is synchronized exactly if the cache of the main manager is, and then its own is.
  pub wait_for_cache_sync_iff :
      (c : SubCache s k) (w : k.World)
      → ((wait_for_cache_sync s k c w).0 ≡ true) ↔ (
          ((c.upstream.wait_for_cache_sync w).0 ≡ true)
          × ((c.local.wait_for_cache_sync (c.upstream.wait_for_cache_sync w).1).0 ≡ true))
  unfolding wait_for_cache_sync
  wait_for_cache_sync_iff c w = by_upstream (c.upstream.wait_for_cache_sync w)
    where
      by_upstream :
          (r : Bool × k.World)
          → ((and_wait s k r c.local.wait_for_cache_sync).0 ≡ true)
            ↔ ((r.0 ≡ true) × ((c.local.wait_for_cache_sync r.1).0 ≡ true))
      by_upstream (true, w) = ((λ e. (refl, e)), λ e. e.1)
      by_upstream (false, w) = ((λ e. cc), λ e. cc (e.0))

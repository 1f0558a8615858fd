-- ===== src/Client/Deletes.antt =====
-- What `DeleteAllOf` of a duck client does.
use Prim.Native.Char.{Char}
use ducks.Prelude.{String, ◌≡◌, false, [], ◌∷◌, inl, inr}
use ducks.Prelude.Exec.{Result, ok, err, outcome_cases}
use ducks.Schema.{Schema}
use ducks.Conditions.{Conditions}
use ducks.Api.{Duck}
use ducks.Client.Wrapped.{Upstream, Object}
use ducks.Client.Select.{Ducks}
use ducks.Client.Lookup.{Finds, find_ducks-Finds}
use ducks.Client.{ClientError, other, find_ducks, delete_each, delete_all_of}

module _ (s : Schema) (c : Conditions) (lower : Char → Char) (u : Upstream c.Status) where
  open u use {World, Error, Content, Opts}

  -- The object under the kind and version of a duck.
  abbrev as_duck : Object Content → Duck c.Status → Object Content
  as_duck obj d = record {
    gvk = record { group = d.spec.group; version = d.spec.version; kind = d.spec.kind };
    content = obj.content;
  }

  -- Deletes of one resource after the other; the first failure ends them, and what was deleted
  -- before it stays deleted.
  pub data Deletes (obj : Object Content) (opts : Opts)
      : Ducks c → World → Result (ClientError Error) Unit × World → Type 0 where
    done : {w : World} → Deletes obj opts [] w (ok tt, w)
    stop :
        {d : Duck c.Status} {ds : Ducks c} {w w₁ : World} {e : Error}
        → u.delete_all_of (as_duck obj d) opts w ≡ (err e, w₁)
        → Deletes obj opts (d ∷ ds) w (err (other e), w₁)
    next :
        {d : Duck c.Status} {ds : Ducks c} {w w₁ : World}
        {r : Result (ClientError Error) Unit × World}
        → u.delete_all_of (as_duck obj d) opts w ≡ (ok tt, w₁)
        → Deletes obj opts ds w₁ r
        → Deletes obj opts (d ∷ ds) w r

  -- The outcomes of `DeleteAllOf`.
  pub data DeletesAs (name : String) (obj : Object Content) (opts : Opts) (w : World)
      : Result (ClientError Error) Unit × World → Type 0 where
    lookup_failed :
        {e : ClientError Error} {w₁ : World}
        → Finds s c lower u name
            (record { group = obj.gvk.group; kind = obj.gvk.kind })
            false
            w
            (err e, w₁)
        → DeletesAs name obj opts w (err e, w₁)
    deleted :
        {found : Ducks c} {w₁ : World} {r : Result (ClientError Error) Unit × World}
        → Finds s c lower u name
            (record { group = obj.gvk.group; kind = obj.gvk.kind })
            false
            w
            (ok found, w₁)
        → Deletes obj opts found w₁ r
        → DeletesAs name obj opts w r

  delete_each-Deletes :
      (obj : Object Content) (opts : Opts) (ds : Ducks c) (w : World)
      → Deletes obj opts ds w (delete_each s c lower u obj opts ds w)
  unfolding delete_each
  delete_each-Deletes obj opts [] w = done
  delete_each-Deletes obj opts (d ∷ ds) w =
      elim (outcome_cases (u.delete_all_of (as_duck obj d) opts w)) [
        | inr (e, w₁, failed) ↦ rw failed (stop failed)
        | inl (tt, w₁, gone) ↦ rw gone (next gone (delete_each-Deletes obj opts ds w₁))
      ]

  -- `DeleteAllOf` looks the kind of its object up without tracking, and deletes all of each wanted
  -- duck's resource in the order of the ducks, up to the first failure.
  pub delete_all_of-DeletesAs :
      (name : String) (obj : Object Content) (opts : Opts) (w : World)
      → DeletesAs name obj opts w (delete_all_of s c lower u name obj opts w)
  unfolding delete_all_of
  delete_all_of-DeletesAs name obj opts w =
      elim (outcome_cases (find_ducks s c lower u name (s.group_kind obj.gvk) false w)) [
        | inr (e, w₁, failed) ↦ rw failed (lookup_failed (rw failed at finds))
        | inl (found, w₁, listed) ↦
            rw listed (deleted (rw listed at finds) (delete_each-Deletes obj opts found w₁))
      ]
    where
      finds :
          Finds s c lower u name
            (record { group = obj.gvk.group; kind = obj.gvk.kind })
            false
            w
            (find_ducks s c lower u name (s.group_kind obj.gvk) false w)
      finds = rw (s.group_kind_lem obj.gvk) (find_ducks-Finds s c lower u name _ false w)

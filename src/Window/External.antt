-- ===== src/Window/External.antt =====
-- The map between the keys of a window's items and the ids that others gave them.
use vumi.Base.{String, ◌≡◌, ◌≢◌, refl, sym, ◌∙◌, false, none, some, [], ◌∷◌, arith, str_eq}
use vumi.Base.Exec.{ok}
use vumi.Redis.State.{Redis, value_at, as_text}
use vumi.Redis.Keys.{delete}
use vumi.Redis.Texts.{set}
use vumi.Redis.Effects.{set-Puts, delete-Clears, get-eq}
use vumi.Window.{map_key, set_external_id, get_internal_id, get_external_id, clear_external_id}
use vumi.Window.Keys.{internal-external}

module _ (w key id : String) (r : Redis) where
  abbrev internal : String
  internal = map_key (w ∷ "internal" ∷ id ∷ [])

  abbrev external : String
  external = map_key (w ∷ "external" ∷ key ∷ [])

  abbrev r' : Redis
  r' = (set_external_id w key id r).1

  stored :
      ((set_external_id w key id r).0 ≡ ok tt)
      × (as_text (value_at r' internal) ≡ some (some key))
      × (as_text (value_at r' external) ≡ some (some id))
      × ((j : String) → internal ≢ j → external ≢ j → value_at r' j ≡ value_at r j)
  unfolding set_external_id set
  stored =
      let first = set-Puts internal key r in
      let r1 = (set internal key r).1 in
      let second = set-Puts external id r1 in
      (
        refl,
        ground (arith, first.at, second.rest internal (λ e. internal-external w id key (sym e))),
        ground (arith, second.at),
        λ j ni ne. second.rest j ne ∙ first.rest j ni,
      )

  -- After `set_external_id`, each of the two ids is found from the other, with the store unchanged
  -- by the look-up, and no key but the two of the map has changed.
  pub set_external_id_lem :
      (get_internal_id w id r' ≡ (ok (some key), r'))
      × (get_external_id w key r' ≡ (ok (some id), r'))
      × ((j : String) → internal ≢ j → external ≢ j → value_at r' j ≡ value_at r j)
  unfolding get_internal_id get_external_id
  set_external_id_lem =
      let (done, int, ext, same) = stored in
      (get-eq internal r' (some key) int, get-eq external r' (some id) ext, same)

  -- `clear_external_id` takes back both directions of the map that `set_external_id` wrote for an
  -- id that is not empty: neither id is found any more.
  pub clear_external_id-set_external_id :
      str_eq id "" ≡ false
      → let r'' = (clear_external_id w key r').1 in
        ((clear_external_id w key r').0 ≡ ok tt)
        × (get_internal_id w id r'' ≡ (ok none, r''))
        × (get_external_id w key r'' ≡ (ok none, r''))
  unfolding clear_external_id get_internal_id get_external_id delete
  clear_external_id-set_external_id h =
      let (done, int, ext, same) = stored in
      let one = delete-Clears external r' in
      let r1 = (delete external r').1 in
      let two = delete-Clears internal r1 in
      let r2 = (delete internal r1).1 in
      rw (get-eq external r' (some id) ext, h)
        (
          refl,
          get-eq internal r2 none (ground (arith, two.at)),
          get-eq external r2 none
              (ground (arith, one.at, two.rest external (internal-external w id key))),
        )

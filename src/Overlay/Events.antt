-- ===== src/Overlay/Events.antt =====
-- The batched patches of `overlayEvents` against the commands replayed one by one.
use mathlib.Core.Path.{fun_ext}
use open_troop.Prelude.{
  String, ◌≡◌, refl, sym, ap, ◌∙◌, subst, inl, inr, Option, none, some, get_or, List, [], ◌∷◌, map,
  arith, str_eq, eq_iff, if◌then◌else◌, Bool-cases, All,
}
use open_troop.Doc.{Doc, spread}
use open_troop.Doc.Spread.{HasDistinctKeys, spread-HasDistinctKeys, spread_assoc}
use open_troop.Db.{PendingCommand}
use open_troop.Overlay.{
  Patches, patch_of, set_patch, patches_event, rest_of, add_patch, collect_patches, patch_event,
  apply_patches, overlay_events, EventLike,
}

-- One pending command on one event.
abbrev pub apply_command : PendingCommand → EventLike → EventLike
apply_command cmd e =
    if patches_event cmd
    then if str_eq cmd.payload.event_id e.id
      then record e { doc = spread e.doc (rest_of cmd.payload) }
      else e
    else e

-- The commands on one event, in the order of the queue.
pub replay : List PendingCommand → EventLike → EventLike
replay [] e = e
replay (cmd ∷ cmds) e = replay cmds (apply_command cmd e)

patch_of-set_patch :
    (k j : String) (d : Doc) (ps : Patches)
    → patch_of j (set_patch k d ps) ≡ (if str_eq k j then some d else patch_of j ps)
unfolding patch_of set_patch
patch_of-set_patch k j d [] = refl
patch_of-set_patch k j d ((i, e) ∷ ps) =
    ground (arith, eq_iff k j, eq_iff i k, eq_iff i j, patch_of-set_patch k j d ps)

-- Each patch is an object.
abbrev AreObjects : Patches → Type 0
AreObjects ps = All (λ p. HasDistinctKeys p.1) ps

patch_of-HasDistinctKeys :
    (id : String) (ps : Patches) → AreObjects ps → HasDistinctKeys (get_or (patch_of id ps) [])
unfolding patch_of
patch_of-HasDistinctKeys id [] h = tt
patch_of-HasDistinctKeys id ((k, d) ∷ ps) (p, h) = elim (Bool-cases (str_eq k id)) [
  | inl here ↦ rw here p
  | inr later ↦ rw later (patch_of-HasDistinctKeys id ps h)
]

set_patch-AreObjects :
    (k : String) (d : Doc) (ps : Patches)
    → HasDistinctKeys d
    → AreObjects ps
    → AreObjects (set_patch k d ps)
unfolding set_patch
set_patch-AreObjects k d [] p h = (p, tt)
set_patch-AreObjects k d ((j, e) ∷ ps) p (q, h) = elim (Bool-cases (str_eq j k)) [
  | inl here ↦ rw here (p, h)
  | inr later ↦ rw later (q, set_patch-AreObjects k d ps p h)
]

add_patch-AreObjects :
    (cmd : PendingCommand) (ps : Patches) → AreObjects ps → AreObjects (add_patch cmd ps)
unfolding add_patch
add_patch-AreObjects cmd ps h = elim (Bool-cases (patches_event cmd)) [
  | inl here ↦ rw here (
      set_patch-AreObjects cmd.payload.event_id _ ps
        (spread-HasDistinctKeys _ (rest_of cmd.payload)
          (patch_of-HasDistinctKeys cmd.payload.event_id ps h))
        h)
  | inr other ↦ rw other h
]

-- What an event shows under patches.
abbrev shown : Patches → EventLike → EventLike
shown ps e = patch_event (patch_of e.id ps) e

patch_event-spread :
    (o : Option Doc) (fields : Doc) (e : EventLike)
    → HasDistinctKeys (get_or o [])
    → patch_event (some (spread (get_or o []) fields)) e
      ≡ record e { doc = spread (patch_event o e).doc fields }
unfolding spread
patch_event-spread none fields e h = ap (λ d. record e { doc = d }) (spread_assoc e.doc [] fields h)
patch_event-spread (some d) fields e h =
    ap (λ x. record e { doc = x }) (spread_assoc e.doc d fields h)

same_event : (o : Option Doc) (e : EventLike) → (patch_event o e).id ≡ e.id
same_event none e = refl
same_event (some d) e = refl

one_patch :
    (cmd : PendingCommand) (ps : Patches) (e : EventLike)
    → AreObjects ps
    → patch_event
        (if str_eq cmd.payload.event_id e.id
          then some (spread (get_or (patch_of cmd.payload.event_id ps) []) (rest_of cmd.payload))
          else patch_of e.id ps)
        e
      ≡ (if str_eq cmd.payload.event_id (shown ps e).id
          then record (shown ps e) { doc = spread (shown ps e).doc (rest_of cmd.payload) }
          else shown ps e)
one_patch cmd ps e h = elim (Bool-cases (str_eq cmd.payload.event_id e.id)) [
  | inl same ↦
      let k : cmd.payload.event_id ≡ e.id = (eq_iff _ _).0 same in
      rw (same_event (patch_of e.id ps) e, same)
        (subst
          (λ x.
            patch_event (some (spread (get_or (patch_of x ps) []) (rest_of cmd.payload))) e
            ≡ record e { doc = spread (shown ps e).doc (rest_of cmd.payload) })
          (sym k)
          (patch_event-spread (patch_of e.id ps) (rest_of cmd.payload) e
            (patch_of-HasDistinctKeys e.id ps h)))
  | inr other ↦ rw (same_event (patch_of e.id ps) e, other)
]

shown-add_patch :
    (cmd : PendingCommand) (ps : Patches) (e : EventLike)
    → AreObjects ps
    → shown (add_patch cmd ps) e ≡ apply_command cmd (shown ps e)
unfolding add_patch
shown-add_patch cmd ps e h = elim (Bool-cases (patches_event cmd)) [
  | inl here ↦
      rw (here, apply_command)
        (ap (λ o. patch_event o e) (patch_of-set_patch cmd.payload.event_id e.id _ ps)
          ∙ one_patch cmd ps e h)
  | inr other ↦ rw (other, apply_command)
]

shown-collect_patches :
    (cmds : List PendingCommand) (ps : Patches) (e : EventLike)
    → AreObjects ps
    → shown (collect_patches cmds ps) e ≡ replay cmds (shown ps e)
unfolding collect_patches replay
shown-collect_patches [] ps e h = refl
shown-collect_patches (cmd ∷ cmds) ps e h =
    shown-collect_patches cmds (add_patch cmd ps) e (add_patch-AreObjects cmd ps h)
    ∙ ap (replay cmds) (shown-add_patch cmd ps e h)

map_pointwise :
    {A B : Type 0} (f g : A → B) → ((x : A) → f x ≡ g x) → (xs : List A) → map f xs ≡ map g xs
map_pointwise f g h xs = ap (λ k. map k xs) (fun_ext h)

map_id : {A : Type 0} (xs : List A) → map (λ x. x) xs ≡ xs
map_id [] = refl
map_id (x ∷ xs) = ap (λ ys. x ∷ ys) (map_id xs)

apply_patches_lem :
    (ps : Patches) (rows : List EventLike) → apply_patches ps rows ≡ map (shown ps) rows
unfolding apply_patches patch_of
apply_patches_lem [] rows = sym (map_id rows)
apply_patches_lem (p ∷ ps) rows = refl

-- What the overlay shows of each event is the event with every pending attendance command for it
-- replayed on top in the order of the queue; no event comes or goes.
pub overlay_events-eq-replay :
    (rows : List EventLike) (cmds : List PendingCommand)
    → overlay_events rows cmds ≡ map (replay cmds) rows
unfolding overlay_events
overlay_events-eq-replay rows cmds =
    apply_patches_lem (collect_patches cmds []) rows
    ∙ map_pointwise (shown (collect_patches cmds [])) (replay cmds)
        (λ e. shown-collect_patches cmds [] e tt ∙ unfold patch_of in refl) rows

-- A replay keeps the event's id.
pub id-replay : (cmds : List PendingCommand) (e : EventLike) → (replay cmds e).id ≡ e.id
unfolding replay
id-replay [] e = refl
id-replay (cmd ∷ cmds) e = id-replay cmds (apply_command cmd e) ∙ ground arith

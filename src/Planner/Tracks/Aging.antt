-- ===== src/Planner/Tracks/Aging.antt =====
-- What a cycle does to the tracks.
use mpc_ws.Prelude.{
  suc, ◌≡◌, refl, ap, ◌∙◌, inl, inr, false, Option, none, some, List, [], ◌∷◌, arith, ltb,
  if◌then◌else◌, Option-cases, All, Any,
}
use mpc_ws.Double.{Double}
use mpc_ws.Prelude.Int.{ℤ, ◌==ℤ◌, ==ℤ_iff}
use mpc_ws.Planner.Tracks.{
  ObjectTrack, Tracks, age_tracks, drop_stale, find_track, observe, observe_all, put_rate,
  put_track, update_tracks,
}
use mpc_ws.Planner.Types.{ObjectInfo}

module _ {R : Type 0} ⦃d : Double R⦄ where
  find_track-put_track :
      (id j : ℤ) (t : ObjectTrack R) (tracks : Tracks R)
      → find_track j (put_track id t tracks) ≡ (if id ==ℤ j then some t else find_track j tracks)
  unfolding find_track put_track
  find_track-put_track id j t [] = refl
  find_track-put_track id j t ((i, u) ∷ tracks) =
      ground (arith, ==ℤ_iff i id, ==ℤ_iff i j, ==ℤ_iff id j, find_track-put_track id j t tracks)

  -- A track one cycle older, or none if it has not been seen for more than 20 cycles.
  abbrev pub aged : Option (ObjectTrack R) → Option (ObjectTrack R)
  aged none = none
  aged (some t) =
      if ltb 20 (suc t.missing_cycles)
      then none
      else some (record t { missing_cycles = suc t.missing_cycles })

  abbrev pub older : Option (ObjectTrack R) → Option (ObjectTrack R)
  older none = none
  older (some t) = some (record t { missing_cycles = suc t.missing_cycles })

  -- No two tracks have one identifier.
  abbrev pub Distinct : Tracks R → Type 0
  Distinct [] = Unit
  Distinct (e ∷ tracks) = (find_track e.0 tracks ≡ none) × Distinct tracks

  find_track-age_tracks :
      (j : ℤ) (tracks : Tracks R) → find_track j (age_tracks tracks) ≡ older (find_track j tracks)
  unfolding find_track age_tracks
  find_track-age_tracks j [] = refl
  find_track-age_tracks j ((i, u) ∷ tracks) = ground (arith, find_track-age_tracks j tracks)

  age_tracks-Distinct : (tracks : Tracks R) → Distinct tracks → Distinct (age_tracks tracks)
  unfolding age_tracks
  age_tracks-Distinct [] h = tt
  age_tracks-Distinct ((i, u) ∷ tracks) h =
      (find_track-age_tracks i tracks ∙ ap older h.0, age_tracks-Distinct tracks h.1)

  put_track-Distinct :
      (id : ℤ) (t : ObjectTrack R) (tracks : Tracks R)
      → Distinct tracks
      → Distinct (put_track id t tracks)
  unfolding put_track
  put_track-Distinct id t [] h = (unfold find_track in refl, tt)
  put_track-Distinct id t ((j, u) ∷ tracks) h = ground (
    arith,
    ==ℤ_iff j id,
    ==ℤ_iff id j,
    find_track-put_track id j t tracks,
    put_track-Distinct id t tracks h.1,
  )

  observe_all-Distinct :
      (objs : List (ObjectInfo R)) (tracks : Tracks R) (rates : List (ℤ × R))
      → Distinct tracks
      → Distinct (observe_all objs tracks rates).0
  unfolding observe_all
  observe_all-Distinct [] tracks rates h = h
  observe_all-Distinct (obj ∷ objs) tracks rates h =
      let t = observe (find_track obj.id tracks) obj in
      observe_all-Distinct objs (put_track obj.id t tracks) (put_rate obj.id t.yaw_rate rates)
        (put_track-Distinct obj.id t tracks h)

  -- A track that is not stale stays, and a stale one goes.
  abbrev fresh : Option (ObjectTrack R) → Option (ObjectTrack R)
  fresh none = none
  fresh (some t) = if ltb 20 t.missing_cycles then none else some t

  find_track-drop_stale :
      (j : ℤ) (tracks : Tracks R)
      → Distinct tracks
      → find_track j (drop_stale tracks) ≡ fresh (find_track j tracks)
  unfolding find_track drop_stale
  find_track-drop_stale j [] h = refl
  find_track-drop_stale j ((i, u) ∷ tracks) h =
      ground (arith, ==ℤ_iff i j, find_track-drop_stale j tracks h.1)

  drop_stale-Distinct : (tracks : Tracks R) → Distinct tracks → Distinct (drop_stale tracks)
  unfolding drop_stale
  drop_stale-Distinct [] h = tt
  drop_stale-Distinct ((i, u) ∷ tracks) h =
      ground (arith, drop_stale-Distinct tracks h.1, find_track-drop_stale i tracks h.1)

  -- An object that is not observed keeps its track through the loop.
  observe_all-unseen :
      (j : ℤ) (objs : List (ObjectInfo R)) (tracks : Tracks R) (rates : List (ℤ × R))
      → All (λ obj. (obj.id ==ℤ j) ≡ false) objs
      → find_track j (observe_all objs tracks rates).0 ≡ find_track j tracks
  unfolding observe_all
  observe_all-unseen j [] tracks rates h = refl
  observe_all-unseen j (obj ∷ objs) tracks rates h =
      let t = observe (find_track obj.id tracks) obj in
      observe_all-unseen j objs (put_track obj.id t tracks) (put_rate obj.id t.yaw_rate rates) h.1
      ∙ find_track-put_track obj.id j t tracks
      ∙ rw h.0

  abbrev IsFresh : Option (ObjectTrack R) → Type 0
  IsFresh none = ⊥
  IsFresh (some t) = t.missing_cycles ≡ 0

  observe-fresh :
      (o : Option (ObjectTrack R)) (obj : ObjectInfo R) → (observe o obj).missing_cycles ≡ 0
  unfolding observe
  observe-fresh none obj = refl
  observe-fresh (some t) obj = refl

  observe_all-keeps_IsFresh :
      (j : ℤ) (objs : List (ObjectInfo R)) (tracks : Tracks R) (rates : List (ℤ × R))
      → IsFresh (find_track j tracks)
      → IsFresh (find_track j (observe_all objs tracks rates).0)
  unfolding observe_all
  observe_all-keeps_IsFresh j [] tracks rates h = h
  observe_all-keeps_IsFresh j (obj ∷ objs) tracks rates h =
      let t = observe (find_track obj.id tracks) obj in
      observe_all-keeps_IsFresh j objs (put_track obj.id t tracks)
        (put_rate obj.id t.yaw_rate rates)
        (ground (
          arith,
          find_track-put_track obj.id j t tracks,
          observe-fresh (find_track obj.id tracks) obj,
        ))

  observe_all-seen :
      (j : ℤ) (objs : List (ObjectInfo R)) (tracks : Tracks R) (rates : List (ℤ × R))
      → Any (λ obj. obj.id ≡ j) objs
      → IsFresh (find_track j (observe_all objs tracks rates).0)
  unfolding observe_all
  observe_all-seen j [] tracks rates h = absurd h
  observe_all-seen j (obj ∷ objs) tracks rates (inl e) =
      let t = observe (find_track obj.id tracks) obj in
      observe_all-keeps_IsFresh j objs (put_track obj.id t tracks)
        (put_rate obj.id t.yaw_rate rates)
        (ground (
          arith,
          ==ℤ_iff obj.id j,
          find_track-put_track obj.id j t tracks,
          observe-fresh (find_track obj.id tracks) obj,
        ))
  observe_all-seen j (obj ∷ objs) tracks rates (inr h) =
      let t = observe (find_track obj.id tracks) obj in
      observe_all-seen j objs (put_track obj.id t tracks) (put_rate obj.id t.yaw_rate rates) h

  -- A cycle keeps the identifiers of the tracks distinct.
  pub update_tracks-Distinct :
      (tracks : Tracks R) (obstacles : List (ObjectInfo R))
      → Distinct tracks
      → Distinct (update_tracks tracks obstacles).tracks
  unfolding update_tracks
  update_tracks-Distinct tracks obstacles h =
      drop_stale-Distinct _
        (observe_all-Distinct obstacles (age_tracks tracks) [] (age_tracks-Distinct tracks h))

  -- After a cycle, an object that was not observed has its old track one cycle older, or none once
  -- it has been missing for more than 20 cycles.
  pub update_tracks-unseen :
      (tracks : Tracks R) (obstacles : List (ObjectInfo R)) (j : ℤ)
      → Distinct tracks
      → All (λ obj. (obj.id ==ℤ j) ≡ false) obstacles
      → find_track j (update_tracks tracks obstacles).tracks ≡ aged (find_track j tracks)
  unfolding update_tracks
  update_tracks-unseen tracks obstacles j h unseen = ground (
    arith,
    find_track-drop_stale j (observe_all obstacles (age_tracks tracks) []).0
        (observe_all-Distinct obstacles (age_tracks tracks) [] (age_tracks-Distinct tracks h)),
    observe_all-unseen j obstacles (age_tracks tracks) [] unseen,
    find_track-age_tracks j tracks,
  )

  -- After a cycle, every object that was observed has a track that has missed no cycle.
  pub update_tracks-seen :
      (tracks : Tracks R) (obstacles : List (ObjectInfo R)) (j : ℤ)
      → Distinct tracks
      → Any (λ obj. obj.id ≡ j) obstacles
      → (t : ObjectTrack R) × (find_track j (update_tracks tracks obstacles).tracks ≡ some t)
        × (t.missing_cycles ≡ 0)
  unfolding update_tracks
  update_tracks-seen tracks obstacles j h seen =
      let after = (observe_all obstacles (age_tracks tracks) []).0 in
      let found = observe_all-seen j obstacles (age_tracks tracks) [] seen in
      let kept =
        find_track-drop_stale j after
          (observe_all-Distinct obstacles (age_tracks tracks) [] (age_tracks-Distinct tracks h)) in
      elim (Option-cases (find_track j after)) [
        | inl e ↦ absurd (rw e at found)
        | inr (t, e) ↦
            let zero_missing : t.missing_cycles ≡ 0 = (rw e at found) in
            (t, kept ∙ rw e (rw zero_missing), zero_missing)
      ]

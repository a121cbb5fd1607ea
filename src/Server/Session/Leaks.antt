-- ===== src/Server/Session/Leaks.antt =====
-- No watch outlives its stream.
use retcd.Prelude.{
  ℕ, ◌+◌, ◌<◌, ◌≡◌, refl, Bool, true, false, List, [], ◌∷◌, Option, none, some, ◌==◌, is_some, All,
  if◌then◌else◌, ℤ, pos, negsuc, arith, ap, ◌∙◌, Option-cases, ◌⊎◌, inl, inr,
}
use retcd.Prelude.Assoc.{lookup, remove, lookup-remove, lookup-insert}
use retcd.Server.Session.{
  WatchCreateRequest, Started, Session, cancel, cancel_all, cancel_of, cancel_found, Input,
  create_request, cancel_request, progress_request, tail_returned, id_taken, disconnected, handle,
  handle_all, opened,
}

-- A watch is running whose context has not ended.
abbrev pub is_live : Option Started → Bool
is_live none = false
is_live (some w) = if w.cancelled then false else true

-- Exactly the running watches have a cancel function in the map, each its own, and IDs are fresh.
pub record IsTracked (s : Session) : Type 0 where
  pub live : (id : ℕ) → is_live (lookup id s.watches) ≡ is_some (lookup id s.cancels)
  pub own : (id c : ℕ) → lookup id s.cancels ≡ some c → c ≡ id
  pub fresh : (id : ℕ) → s.watch_id < id → lookup id s.watches ≡ none

is_live-cancel :
    (id j : ℕ) (ws : List (ℕ × Started))
    → is_live (lookup j (cancel id ws)) ≡ (if id == j then false else is_live (lookup j ws))
unfolding lookup cancel
is_live-cancel id j [] = ground arith
is_live-cancel id j ((i, w) ∷ ws) = ground (arith, is_live-cancel id j ws)

lookup-cancel-none :
    (id j : ℕ) (ws : List (ℕ × Started)) → lookup j ws ≡ none → lookup j (cancel id ws) ≡ none
unfolding lookup cancel
lookup-cancel-none id j [] h = refl
lookup-cancel-none id j ((i, w) ∷ ws) h = ground (arith, lookup-cancel-none id j ws)

create-IsTracked :
    (cr : WatchCreateRequest) (rev : ℕ) (s : Session)
    → IsTracked s
    → IsTracked (handle (create_request cr rev) s)
unfolding handle lookup
create-IsTracked cr rev s t = record {
  live =
      λ id. ground (arith, t.live id, lookup-insert (s.watch_id + 1) id (s.watch_id + 1) s.cancels);
  own = λ id c h.
      ground (arith, t.own id c, lookup-insert (s.watch_id + 1) id (s.watch_id + 1) s.cancels, h);
  fresh = λ id h. ground (arith, t.fresh id);
}

remove-IsTracked :
    (id : ℕ) (s : Session)
    → IsTracked s
    → IsTracked (record s { cancels = remove id s.cancels; watches = cancel id s.watches })
remove-IsTracked id s t = record {
  live = λ j. ground (arith, is_live-cancel id j s.watches, lookup-remove id j s.cancels, t.live j);
  own = λ j c h. ground (arith, lookup-remove id j s.cancels, t.own j c, h);
  fresh = λ j h. lookup-cancel-none id j s.watches (t.fresh j h);
}

-- The map's entry for a cancel request.
cancel_of-cases :
    (id : ℤ) (cs : List (ℕ × ℕ))
    → (cancel_of id cs ≡ none)
      ⊎ ((i : ℕ) × (c : ℕ) × (cancel_of id cs ≡ some (i, c)) × (lookup i cs ≡ some c))
unfolding cancel_of
cancel_of-cases (negsuc n) cs = inl refl
cancel_of-cases (pos id) cs = elim (Option-cases (lookup id cs)) [
  | inl missing ↦ inl (ground (arith, missing))
  | inr (c, found) ↦ inr (id, c, ground (arith, found), found)
]

cancel_found-IsTracked :
    (o : Option (ℕ × ℕ)) (s : Session)
    → IsTracked s
    → (o ≡ none) ⊎ ((i : ℕ) × (c : ℕ) × (o ≡ some (i, c)) × (lookup i s.cancels ≡ some c))
    → IsTracked (cancel_found o s)
cancel_found-IsTracked o s t (inl e) = rw e t
cancel_found-IsTracked o s t (inr (i, c, e, found)) =
    rw e (rw (t.own i c found) (remove-IsTracked i s t))

cancel_request-IsTracked :
    (id : ℤ) (s : Session) → IsTracked s → IsTracked (handle (cancel_request id) s)
unfolding handle
cancel_request-IsTracked id s t =
    let t' = cancel_found-IsTracked (cancel_of id s.cancels) s t (cancel_of-cases id s.cancels) in
    record { live = t'.live; own = t'.own; fresh = t'.fresh }

lookup-cancel_all-none :
    (j : ℕ) (cs : List (ℕ × ℕ)) (ws : List (ℕ × Started))
    → lookup j ws ≡ none
    → lookup j (cancel_all cs ws) ≡ none
unfolding cancel_all
lookup-cancel_all-none j [] ws h = h
lookup-cancel_all-none j ((i, c) ∷ cs) ws h =
    lookup-cancel-none c j (cancel_all cs ws) (lookup-cancel_all-none j cs ws h)

-- The loop ends a watch that was not running before, or that the map leads to.
is_live-cancel_all :
    (j : ℕ) (cs : List (ℕ × ℕ)) (ws : List (ℕ × Started))
    → (is_live (lookup j ws) ≡ false) ⊎ (lookup j cs ≡ some j)
    → is_live (lookup j (cancel_all cs ws)) ≡ false
unfolding cancel_all lookup
is_live-cancel_all j [] ws h = ground (arith, h)
is_live-cancel_all j ((i, c) ∷ cs) ws h =
    ground (arith, is_live-cancel c j (cancel_all cs ws), is_live-cancel_all j cs ws, h)

disconnected-ended :
    (s : Session)
    → IsTracked s
    → (j : ℕ) → is_live (lookup j (handle disconnected s).watches) ≡ false
unfolding handle
disconnected-ended s t j = elim (Option-cases (lookup j s.cancels)) [
  | inl missing ↦
      is_live-cancel_all j s.cancels s.watches (inl (t.live j ∙ ap (λ o. is_some o) missing))
  | inr (c, found) ↦
      is_live-cancel_all j s.cancels s.watches (inr (found ∙ ap (λ n. some n) (t.own j c found)))
]

-- The inputs before the client is gone.
abbrev pub IsOpen : Input → Type 0
IsOpen (create_request cr rev) = Unit {0}
IsOpen (cancel_request id) = Unit {0}
IsOpen (progress_request rev) = Unit {0}
IsOpen (tail_returned id) = Unit {0}
IsOpen id_taken = Unit {0}
IsOpen disconnected = ⊥

handle-IsTracked : (i : Input) (s : Session) → IsOpen i → IsTracked s → IsTracked (handle i s)
handle-IsTracked (create_request cr rev) s o t = create-IsTracked cr rev s t
handle-IsTracked (cancel_request id) s o t = cancel_request-IsTracked id s t
handle-IsTracked (progress_request rev) s o t =
    unfold handle in record { live = t.live; own = t.own; fresh = t.fresh }
handle-IsTracked (tail_returned id) s o t =
    let t' = remove-IsTracked id s t in
    unfold handle in record { live = t'.live; own = t'.own; fresh = t'.fresh }
handle-IsTracked id_taken s o t =
    unfold handle in
    record { live = t.live; own = t.own; fresh = λ id h. t.fresh id (omega (arith, h)) }
handle-IsTracked disconnected s o t = elim o [ ]

opened-IsTracked : (n : ℕ) → IsTracked (opened n)
unfolding lookup
opened-IsTracked n = record { live = λ id. refl; own = λ id c h. absurd cc; fresh = λ id h. refl }

handle_all-IsTracked_from :
    (is : List Input) (s : Session) → All IsOpen is → IsTracked s → IsTracked (handle_all is s)
unfolding handle_all
handle_all-IsTracked_from [] s o t = t
handle_all-IsTracked_from (i ∷ is) s o t =
    handle_all-IsTracked_from is (handle i s) o.1 (handle-IsTracked i s o.0 t)

-- Whatever requests a stream gets and whichever of its watches return, exactly the running watches
-- have a cancel function in the map, each its own, and no watch has an ID beyond the counter.
pub handle_all-IsTracked :
    (n : ℕ) (is : List Input) → All IsOpen is → IsTracked (handle_all is (opened n))
handle_all-IsTracked n is o = handle_all-IsTracked_from is (opened n) o (opened-IsTracked n)

-- When the client is gone, every watch that its stream has started has a context that has ended: none
-- outlives the stream.
pub disconnected-none_live :
    (n : ℕ) (is : List Input) (j : ℕ)
    → All IsOpen is
    → is_live (lookup j (handle disconnected (handle_all is (opened n))).watches) ≡ false
disconnected-none_live n is j o =
    disconnected-ended (handle_all is (opened n)) (handle_all-IsTracked n is o) j

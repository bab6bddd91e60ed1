-- ===== src/Service/Promise.antt =====
-- What a call of a service promises: a verdict on the tables of before, which is the error or the
-- answer and the tables of after. A call keeps the promise if it ends as the verdict says, or
-- reports a failure of a library and changes nothing. A call outside a transaction, and a
-- transaction whose function ends as the verdict says, are told apart here once for all services.
use go_user_system.Common.{String, Bool, true, false, ◌≡◌, refl, sym, ap, ◌∙◌}
use go_user_system.Errors.{Error, external, error_is}
use go_user_system.Result.{Result, ok, err, Action, map_error}
use go_user_system.Database.{Tables, Ends, committed, rolled_back, failed}

-- An error of a library stands in the chain of causes.
abbrev pub equals_external : Error → Bool
equals_external (external text) = true
equals_external _ = false

abbrev pub IsFault : Error → Type 0
IsFault e = error_is equals_external e ≡ true

pub external-IsFault : (text : String) → IsFault (external text)
unfolding error_is
external-IsFault text = refl

pub data Verdict (A : Type 0) : Type 0 where
  refused : Error → Verdict A
  accepted : A → Tables → Verdict A

abbrev pub wrap : {A : Type 0} → (Error → Error) → Verdict A → Verdict A
wrap f (refused e) = refused (f e)
wrap f (accepted a t) = accepted a t

-- `Fault` says which errors may stand for a failure of a library; most calls show it in the chain
-- of causes, and one call hides it.
module _ {S A : Type 0} (view : S → Tables) (Fault : Error → Type 0) where
  pub data Keeps (v : Verdict A) (t : Tables) (o : Result A × S) : Type 0 where
    refusal : (e : Error) → v ≡ refused e → o.0 ≡ err e → view o.1 ≡ t → Keeps v t o
    success : (a : A) (u : Tables) → v ≡ accepted a u → o.0 ≡ ok a → view o.1 ≡ u → Keeps v t o
    fault : (e : Error) → o.0 ≡ err e → Fault e → view o.1 ≡ t → Keeps v t o

  -- How the function of a transaction ends; what it wrote before an error is undone.
  pub data Runs (v : Verdict A) (o : Result A × S) : Type 0 where
    refuses : (e : Error) → v ≡ refused e → o.0 ≡ err e → Runs v o
    succeeds : (a : A) (u : Tables) → v ≡ accepted a u → o.0 ≡ ok a → view o.1 ≡ u → Runs v o
    faults : (e : Error) → o.0 ≡ err e → Fault e → Runs v o

  abbrev pub Implements : (Tables → Verdict A) → Action S A → Type 0
  Implements spec act = (s : S) → Keeps (spec (view s)) (view s) (act s)

  commits :
      (spec : Tables → Verdict A) (s t : S) (a : A) (o r : Result A × S)
      → view t ≡ view s
      → r.0 ≡ ok a
      → o.0 ≡ ok a
      → view o.1 ≡ view r.1
      → Runs (spec (view t)) r
      → Keeps (spec (view s)) (view s) o
  commits spec s t a o r same ran result end (refuses e v p) = absurd (cc)
  commits spec s t a o r same ran result end (succeeds b u v p q) =
      success b u (ap spec (sym same) ∙ v) (result ∙ sym ran ∙ p) (end ∙ q)
  commits spec s t a o r same ran result end (faults e p f) = absurd (cc)

  undoes :
      (spec : Tables → Verdict A) (s t : S) (e : Error) (o r : Result A × S)
      → view t ≡ view s
      → r.0 ≡ err e
      → o.0 ≡ err e
      → view o.1 ≡ view s
      → Runs (spec (view t)) r
      → Keeps (spec (view s)) (view s) o
  undoes spec s t e o r same ran result end (refuses d v p) =
      refusal d (ap spec (sym same) ∙ v) (result ∙ sym ran ∙ p) end
  undoes spec s t e o r same ran result end (succeeds b u v p q) = absurd (cc)
  undoes spec s t e o r same ran result end (faults d p f) = fault d (result ∙ sym ran ∙ p) f end

  -- A transaction keeps the promise that its function keeps but for what an error leaves behind.
  pub settles :
      (spec : Tables → Verdict A) (body : Action S A)
      → ((text : String) → Fault (external text))
      → ((t : S) → Runs (spec (view t)) (body t))
      → (s : S) (o : Result A × S) → Ends view body s o
      → Keeps (spec (view s)) (view s) o
  settles spec body lost runs s o (committed t a same ran result end) =
      commits spec s t a o (body t) same ran result end (runs t)
  settles spec body lost runs s o (rolled_back t e same ran result end) =
      undoes spec s t e o (body t) same ran result end (runs t)
  settles spec body lost runs s o (failed text result end) = fault _ result (lost text) end

  -- A transaction whose error is wrapped.
  pub wraps :
      (f : Error → Error) (spec : Tables → Verdict A) (t : Tables) (o : Result A × S)
      → ((e : Error) → Fault e → Fault (f e))
      → Keeps (spec t) t o
      → Keeps (wrap f (spec t)) t (map_error f o.0, o.1)
  wraps f spec t o h (refusal e v p q) = refusal (f e) (rw v refl) (rw p refl) q
  wraps f spec t o h (success a u v p q) = success a u (rw v refl) (rw p refl) q
  wraps f spec t o h (fault e p i q) = fault (f e) (rw p refl) (h e i) q

  -- A part of a transaction whose error is wrapped.
  pub wraps_runs :
      (f : Error → Error) (v : Verdict A) (o : Result A × S)
      → ((e : Error) → Fault e → Fault (f e))
      → Runs v o
      → Runs (wrap f v) (map_error f o.0, o.1)
  wraps_runs f v o h (refuses e w p) = refuses (f e) (rw w refl) (rw p refl)
  wraps_runs f v o h (succeeds a u w p q) = succeeds a u (rw w refl) (rw p refl) q
  wraps_runs f v o h (faults e p i) = faults (f e) (rw p refl) (h e i)

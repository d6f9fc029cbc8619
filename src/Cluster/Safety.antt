-- ===== src/Cluster/Safety.antt =====
-- A logic for programs over the Kubernetes API: what holds of each request when it is made, and of
-- the value at the end, in terms of the requests and responses before.
use namespace_class.Base.{◌⊎◌, inr}
use namespace_class.Errors.{Result}
use namespace_class.Cluster.{Request, Response, Program, ret, call, bind}

pub data History : Type 0 where
  start : History
  past : History → (q : Request) → Result (Response q) → History

-- The second history goes on from the first.
pub data Extends (h : History) : History → Type 0 where
  here : Extends h h
  later :
      {g : History} (q : Request) (r : Result (Response q)) → Extends h g → Extends h (past g q r)

pub Extends-trans : {f g h : History} → Extends f g → Extends g h → Extends f h
Extends-trans e here = e
Extends-trans e (later q r d) = later q r (Extends-trans e d)

abbrev pub Event : Type 1
Event = (q : Request) → Result (Response q) → Type 0

-- There was such an event.
abbrev pub Occurs : Event → History → Type 0
Occurs E start = ⊥
Occurs E (past h q r) = E q r ⊎ Occurs E h

pub Occurs-Extends : (E : Event) {g h : History} → Extends g h → Occurs E g → Occurs E h
Occurs-Extends E here o = o
Occurs-Extends E (later q r e) o = inr (Occurs-Extends E e o)

-- `P` holds of each request, in the history in which it is made, and `Q` of the outcome.
abbrev pub Safe :
    {A : Type 0}
    → (History → Request → Type 0)
    → (History → A → Type 0)
    → History
    → Program A
    → Type 0
Safe P Q h (ret a) = Q h a
Safe P Q h (call q k) = P h q × ((r : Result (Response q)) → Safe P Q (past h q r) (k r))

module _ {A : Type 0} (P : History → Request → Type 0) where
  -- The outcome's history goes on from the one at the beginning.
  Safe-Extends :
      (Q : History → A → Type 0) (g h : History) (m : Program A)
      → Extends g h
      → Safe P Q h m
      → Safe P (λ h' a. Q h' a × Extends g h') h m
  Safe-Extends Q g h (ret a) e s = (s, e)
  Safe-Extends Q g h (call q k) e s = (s.0, λ r. Safe-Extends Q g _ (k r) (later q r e) (s.1 r))

module _ {A B : Type 0} (P : History → Request → Type 0) (R : History → B → Type 0) where
  bind_rule :
      (Q : History → A → Type 0) (h : History) (m : Program A) (f : A → Program B)
      → Safe P Q h m
      → ((h' : History) (a : A) → Q h' a → Safe P R h' (f a))
      → Safe P R h (bind m f)
  unfolding bind
  bind_rule Q h (ret a) f s k = k h a s
  bind_rule Q h (call q c) f s k = (s.0, λ r. bind_rule Q _ (c r) f (s.1 r) k)

  pub Safe-bind :
      (Q : History → A → Type 0) (h : History) (m : Program A) (f : A → Program B)
      → Safe P Q h m
      → ((h' : History) (a : A) → Q h' a → Extends h h' → Safe P R h' (f a))
      → Safe P R h (bind m f)
  Safe-bind Q h m f s k =
      bind_rule (λ h' a. Q h' a × Extends h h') h m f (Safe-Extends P Q h h m here s)
        (λ h' a q. k h' a q.0 q.1)

module _ {A : Type 0} (P : History → Request → Type 0) (Q R : History → A → Type 0) where
  post_rule :
      (h : History) (m : Program A)
      → Safe P Q h m
      → ((h' : History) (a : A) → Q h' a → R h' a)
      → Safe P R h m
  post_rule h (ret a) s f = f h a s
  post_rule h (call q k) s f = (s.0, λ r. post_rule _ (k r) (s.1 r) f)

module _ {A : Type 0} (P : History → Request → Type 0) (Q R : History → A → Type 0) where
  -- A weaker postcondition, for which the end may be compared with the beginning.
  pub Safe-post :
      (h : History) (m : Program A)
      → Safe P Q h m
      → ((h' : History) (a : A) → Q h' a → Extends h h' → R h' a)
      → Safe P R h m
  Safe-post h m s f =
      post_rule P (λ h' a. Q h' a × Extends h h') R h m (Safe-Extends P Q h h m here s)
        (λ h' a q. f h' a q.0 q.1)

module _ {A : Type 0} (P P' : History → Request → Type 0) (Q : History → A → Type 0) where
  -- A weaker condition on the requests.
  pub Safe-weaken :
      (h : History) (m : Program A)
      → Safe P Q h m
      → ((h' : History) (q : Request) → P h' q → P' h' q)
      → Safe P' (λ _ _. Unit {0}) h m
  Safe-weaken h (ret a) s f = tt
  Safe-weaken h (call q k) s f = (f h q s.0, λ r. Safe-weaken _ (k r) (s.1 r) f)

module _ {A : Type 0} (P : History → Request → Type 0) (Q R : History → A → Type 0) where
  -- The outcome alone.
  pub Safe-outcome :
      (h : History) (m : Program A)
      → Safe P Q h m
      → ((h' : History) (a : A) → Q h' a → R h' a)
      → Safe (λ _ _. Unit {0}) R h m
  Safe-outcome h (ret a) s f = f h a s
  Safe-outcome h (call q k) s f = (tt, λ r. Safe-outcome _ (k r) (s.1 r) f)

-- Without a condition there is nothing to show.
pub Safe-any :
    {A : Type 0} (h : History) (m : Program A) → Safe (λ _ _. Unit {0}) (λ _ _. Unit {0}) h m
Safe-any h (ret a) = tt
Safe-any h (call q k) = (tt, λ r. Safe-any _ (k r))

-- ===== src/Queue/Channel.antt =====
-- A FIFO channel between the posters of a custom event and its handler: the abstract specification that
-- the custom events of epoll are compared with. The traits of src/queue.rs promise no order.
use complete_io.Base.{◌≡◌, Option, none, some, List, [], ◌∷◌, ◌++◌}

pub record Channel {ℓ} (D : Type ℓ) : Type ℓ where
  pub waiting : List D
  pub delivered : List D

module _ {ℓ} {D : Type ℓ} where
  -- What one step may do. If it posts a datum, the channel takes in that one at the end; if it posts
  -- none, the first datum is handed to the handler, or nothing changes.
  pub data Move (c : Channel D) : Option D → Channel D → Type ℓ where
    rests : Move c none c
    sends : (x : D) → Move c (some x) (record c { waiting = c.waiting ++ x ∷ [] })
    delivers :
        (x : D) (rest : List D)
        → c.waiting ≡ x ∷ rest
        → Move c none (record { waiting = rest; delivered = c.delivered ++ x ∷ [] })

module _ {State Event : Type 0} (step : Event → State → Option State) where
  -- Steps from one state to another.
  pub data Steps : State → State → Type 0 where
    here : {s : State} → Steps s s
    next : {s u v : State} (e : Event) → step e s ≡ some u → Steps u v → Steps s v

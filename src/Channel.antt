-- ===== src/Channel.antt =====
-- Go's buffered channels, as the program uses them: the operations of a `select` with a `default`,
-- and closing. The capacity is an argument of the send.
use xds_relay.Prelude.{
  ℕ, ◌≤◌, ◌≡◌, refl, ap, arith, Bool, true, false, List, [], ◌∷◌, ◌++◌, length, ltb, not,
  if◌then◌else◌,
}
use xds_relay.Outcome.{Outcome, ok, panic}

pub record Channel {ℓ} (A : Type ℓ) : Type ℓ where
  pub queue : List A
  pub closed : Bool

-- What a non-blocking operation did.
pub data Attempt {ℓ} (A : Type ℓ) : Type ℓ where
  done : A → Attempt A
  blocked : Attempt A

module _ {ℓ} {A : Type ℓ} where
  abbrev pub make_channel : Channel A
  make_channel = record { queue = []; closed = false }

  -- `select { case c <- x: … default: … }`; a send on a closed channel panics.
  unfoldable pub try_send : ℕ → A → Channel A → Outcome (Attempt (Channel A))
  try_send capacity x c =
      if c.closed
      then panic
      else if ltb (length c.queue) capacity
      then ok (done (record c { queue = c.queue ++ x ∷ [] }))
      else ok blocked

  -- `select { case <-c: … default: … }` with the received value dropped: the channel afterwards, and
  -- whether the `default` was taken. A closed channel is always ready.
  unfoldable pub drain_one : Channel A → Channel A × Bool
  drain_one c = elim c.queue [
    | [] ↦ (c, not c.closed)
    | x ∷ rest ↦ (record c { queue = rest }, false)
  ]

  -- `close(c)`: closing twice panics.
  unfoldable pub close : Channel A → Outcome (Channel A)
  close c = if c.closed then panic else ok (record c { closed = true })

  -- On an open channel that holds at most one element, dropping one empties it.
  pub drain_one-empty :
      (c : Channel A) → length c.queue ≤ 1 → (drain_one c).0 ≡ record c { queue = [] }
  unfolding drain_one
  drain_one-empty c fits = go c.queue refl
    where
      go : (q : List A) → c.queue ≡ q → (drain_one c).0 ≡ record c { queue = [] }
      go [] e = rw (e, drain_one) (λ i. record c { queue = e i })
      go (x ∷ []) e = rw (e, drain_one)
      go (x ∷ y ∷ q) e = absurd (omega (arith, ap length e))

  -- Dropping one and sending then succeeds, and the channel holds the new element alone.
  pub replace_one :
      (c : Channel A) (x : A)
      → c.closed ≡ false
      → length c.queue ≤ 1
      → try_send 1 x (drain_one c).0 ≡ ok (done (record c { queue = x ∷ [] }))
  unfolding try_send
  replace_one c x live fits = rw (drain_one-empty c fits, live)

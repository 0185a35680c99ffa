-- ===== src/Communicant/Wire.antt =====
-- What a send puts on the stream, and what a receive takes off it.
use gensync_core.Prelude.{
  ℕ, ◌+◌, ◌≡◌, refl, sym, ap, ap₂, ◌∙◌, true, List, [], ◌++◌, length, leb, length-append,
  take-append, drop-append, arith,
}
use mathlib.Core.Path.{fun_ext, subst}
use mathlib.Core.List.{append_assoc, append-nil}
use native.Mathlib.Nat.{add-zero}
use gensync_core.Prelude.Outcome.{Outcome, ok, ◌>>=◌, ok-injective, >>=-eq-ok}
use gensync_core.Communicant.{Communicant, comm_send, comm_recv}

-- The communicant after `n` bytes were read, with `rest` still to come.
abbrev pub consumed : ℕ → List ℕ → Communicant → Communicant
consumed n rest c = record c {
  stream = rest;
  recv_bytes = c.recv_bytes + n;
  recv_bytes_tot = c.recv_bytes_tot + n;
}

-- A send that puts exactly `wire` on the stream.
pub record Sends (send : Communicant → Communicant) (wire : List ℕ) : Type 0 where
  pub sent : (c : Communicant) → send c ≡ comm_send wire c

-- A receive that takes exactly `wire` off the stream, and gives `a`.
pub record Receives {ℓ} {A : Type ℓ} (recv : Communicant → Outcome (A × Communicant))
    (wire : List ℕ) (a : A) : Type ℓ where
  pub received :
      (c : Communicant) (rest : List ℕ)
      → c.stream ≡ wire ++ rest
      → recv c ≡ ok (a, consumed (length wire) rest c)

added_length : (xs ys : List ℕ) (t : ℕ) → t + length xs + length ys ≡ t + length (xs ++ ys)
added_length xs ys t = omega (arith, length-append xs ys)

pub comm_send-append :
    (xs ys : List ℕ) (c : Communicant) → comm_send ys (comm_send xs c) ≡ comm_send (xs ++ ys) c
unfolding comm_send
comm_send-append xs ys c =
    ap₂
      (λ s k. record c {
        stream = s;
        xfer_bytes = k c.xfer_bytes;
        xfer_bytes_tot = k c.xfer_bytes_tot;
      })
      (append_assoc c.stream xs ys) (fun_ext (added_length xs ys))

pub comm_recv-wire : (wire : List ℕ) → Receives (comm_recv (length wire)) wire wire
unfolding comm_recv
comm_recv-wire wire = record {
  received = λ c rest e. rw (e, enough rest, take-append wire rest, drop-append wire rest) refl;
}
  where
    enough : (rest : List ℕ) → leb (length wire) (length (wire ++ rest)) ≡ true
    enough rest = ground (arith, length-append wire rest)

pub Sends-then :
    {f g : Communicant → Communicant} {v w : List ℕ}
    → Sends f v
    → Sends g w
    → Sends (λ c. g (f c)) (v ++ w)
Sends-then {f} {g} {v} {w} hf hg = record {
  sent = λ c. hg.sent (f c) ∙ ap (comm_send w) (hf.sent c) ∙ comm_send-append v w c;
}

pub consumed-consumed :
    (v w : List ℕ) (rest rest' : List ℕ) (c : Communicant)
    → consumed (length w) rest (consumed (length v) rest' c) ≡ consumed (length (v ++ w)) rest c
consumed-consumed v w rest rest' c =
    ap
      (λ k. record c {
        stream = rest;
        recv_bytes = k c.recv_bytes;
        recv_bytes_tot = k c.recv_bytes_tot;
      })
      (fun_ext (added_length v w))

pub Receives-then {ℓ κ} :
    {A : Type ℓ} {B : Type κ} {f : Communicant → Outcome (A × Communicant)}
    (g : A → Communicant → Outcome (B × Communicant)) {v w : List ℕ} {a : A} {b : B}
    → Receives f v a
    → Receives (g a) w b
    → Receives (λ c. f c >>= λ x. g x.0 x.1) (v ++ w) b
Receives-then g {v} {w} {a} {b} hf hg = record {
  received = λ c rest e. rw (hf.received c (w ++ rest) (e ∙ append_assoc v w rest)) (
      hg.received (consumed (length v) (w ++ rest) c) rest refl
      ∙ ap (λ c'. ok (b, c')) (consumed-consumed v w rest (w ++ rest) c));
}

pub comm_recv-exact : {n : ℕ} (wire : List ℕ) → length wire ≡ n → Receives (comm_recv n) wire wire
comm_recv-exact wire e = subst (λ n. Receives (comm_recv n) wire wire) e (comm_recv-wire wire)

pub comm_send-nil : (c : Communicant) → comm_send [] c ≡ c
unfolding comm_send
comm_send-nil c =
    ap₂
      (λ s k. record c {
        stream = s;
        xfer_bytes = k c.xfer_bytes;
        xfer_bytes_tot = k c.xfer_bytes_tot;
      })
      (append-nil c.stream) (fun_ext add-zero)

pub consumed-nil : (c : Communicant) (rest : List ℕ) → c.stream ≡ rest → consumed 0 rest c ≡ c
consumed-nil c rest e =
    ap₂
      (λ s k. record c {
        stream = s;
        recv_bytes = k c.recv_bytes;
        recv_bytes_tot = k c.recv_bytes_tot;
      })
      (sym e) (fun_ext add-zero)

-- A last step that only changes the value.
pub Receives-map {ℓ κ} :
    {A : Type ℓ} {B : Type κ} {f : Communicant → Outcome (A × Communicant)} {v : List ℕ} {a : A}
    {b : B} (h : A → B)
    → Receives f v a
    → h a ≡ b
    → Receives (λ c. f c >>= λ x. ok (h x.0, x.1)) v b
Receives-map h hf e = record { received = λ c rest s. rw (hf.received c rest s, e) refl }

-- The communicant once `n` bytes more were sent and received.
abbrev pub counted : ℕ → Communicant → Communicant
counted n c = record c {
  xfer_bytes = c.xfer_bytes + n;
  xfer_bytes_tot = c.xfer_bytes_tot + n;
  recv_bytes = c.recv_bytes + n;
  recv_bytes_tot = c.recv_bytes_tot + n;
}

-- What was sent over an empty stream is received, and as many bytes are counted on both sides.
pub delivered {ℓ} :
    {A : Type ℓ} {send : Communicant → Communicant} {recv : Communicant → Outcome (A × Communicant)}
    {wire : List ℕ} {a : A}
    → Sends send wire
    → Receives recv wire a
    → (c : Communicant) → c.stream ≡ []
    → recv (send c) ≡ ok (a, counted (length wire) c)
unfolding comm_send
delivered {recv = recv} {wire} {a} s r c e =
    ap recv (s.sent c)
    ∙ r.received (comm_send wire c) [] (ap (λ l. l ++ wire) e ∙ sym (append-nil wire))
    ∙ ap (λ l. ok (a, record (counted (length wire) c) { stream = l })) (sym e)

pub counted-zero : (c : Communicant) → counted 0 c ≡ c
counted-zero c =
    ap
      (λ k. record c {
        xfer_bytes = k c.xfer_bytes;
        xfer_bytes_tot = k c.xfer_bytes_tot;
        recv_bytes = k c.recv_bytes;
        recv_bytes_tot = k c.recv_bytes_tot;
      })
      (fun_ext add-zero)

pub counted-counted : (n m : ℕ) (c : Communicant) → counted m (counted n c) ≡ counted (n + m) c
counted-counted n m c =
    ap
      (λ k. record c {
        xfer_bytes = k c.xfer_bytes;
        xfer_bytes_tot = k c.xfer_bytes_tot;
        recv_bytes = k c.recv_bytes;
        recv_bytes_tot = k c.recv_bytes_tot;
      })
      (fun_ext (added n m))
  where
    added : (n m t : ℕ) → t + n + m ≡ t + (n + m)
    added n m t = omega arith

-- A received value with the one before it.
unfoldable pub pair_with : {A B : Type 0} → A → B → A × B
pair_with a b = (a, b)

-- Two messages that are sent in a row arrive in a row.
pub two-arrive :
    {A B : Type 0} {send₁ send₂ : Communicant → Communicant}
    {f : Communicant → Outcome (A × Communicant)} {g : Communicant → Outcome (B × Communicant)}
    {w₁ w₂ : List ℕ} {a : A} {b : B}
    → Sends send₁ w₁
    → Sends send₂ w₂
    → Receives f w₁ a
    → Receives g w₂ b
    → (c : Communicant) → c.stream ≡ []
    → (c' : Communicant) × (n : ℕ) × (f (send₂ (send₁ c)) ≡ ok (a, c'))
      × (g c' ≡ ok (b, counted n c))
unfolding pair_with
two-arrive {A} {B} {send₁} {send₂} {f} {g} {w₁} {w₂} {a} {b} s₁ s₂ r₁ r₂ c e =
    let both = λ (x : A) (c : Communicant). g c >>= λ y. ok (pair_with x y.0, y.1) in
    let run =
      delivered (Sends-then {g = send₂} s₁ s₂)
        (Receives-then both r₁ (Receives-map (pair_with a) r₂ refl)) c e in
    let (x, rest, first) = >>=-eq-ok (f (send₂ (send₁ c))) _ run in
    let (y, ends, second) = >>=-eq-ok (g x.1) _ rest in
    let same = ok-injective ends in
    (x.1, _, first ∙ ap (λ u. ok (u.0.0, x.1)) same, second ∙ ap (λ u. ok (u.0.1, u.1)) same)

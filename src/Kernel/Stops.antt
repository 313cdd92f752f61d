-- ===== src/Kernel/Stops.antt =====
-- kernel_set_device where the kernel refuses a message.
use wireguard_android_expres.Base.{ℕ, zero, suc, ◌≡◌, refl, Bool, true, false, List, [], ◌∷◌}
use wireguard_android_expres.Containers.{WgAllowedIp, WgPeer, WgDevice}
use wireguard_android_expres.Kernel.{Mnl, Message, device_message}
use wireguard_android_expres.Kernel.Fill.{
  fill, Outcome, returned, still_sending, next_round, cons_sent, rounds, kernel_set_device,
}

-- Each message but the last was taken, and the last was answered by `e`.
abbrev pub IsStop : (Message → ℕ) → ℕ → List Message → Type 0
IsStop answer e [] = ⊥
IsStop answer e (msg ∷ []) = answer msg ≡ e
IsStop answer e (msg ∷ next ∷ msgs) = (answer msg ≡ 0) × IsStop answer e (next ∷ msgs)

abbrev pub OnReturned : (ℕ → List Message → Type 0) → Outcome → Type 0
OnReturned P (returned e msgs) = P e msgs
OnReturned P still_sending = Unit

cons-IsStop :
    (answer : Message → ℕ) (msg : Message) (o : Outcome)
    → answer msg ≡ 0
    → OnReturned (IsStop answer) o
    → OnReturned (IsStop answer) (cons_sent msg o)
cons-IsStop answer msg (returned e []) a v = absurd v
cons-IsStop answer msg (returned e (next ∷ msgs)) a v = (a, v)
cons-IsStop answer msg still_sending a v = tt

next_round-IsStop :
    (answer : Message → ℕ) (msg : Message) (e : ℕ) (peer : List WgPeer) (rest : Outcome)
    → answer msg ≡ e
    → OnReturned (IsStop answer) rest
    → OnReturned (IsStop answer) (next_round e msg peer rest)
next_round-IsStop answer msg zero [] rest a v = a
next_round-IsStop answer msg zero (p ∷ ps) rest a v = cons-IsStop answer msg rest a v
next_round-IsStop answer msg (suc e) peer rest a v = a

rounds-IsStop :
    (m : Mnl) (answer : Message → ℕ) (dev : WgDevice) (fuel : ℕ) (first : Bool)
    (ips : List WgAllowedIp) (peers : List WgPeer)
    → OnReturned (IsStop answer) (rounds m answer dev fuel first ips peers)
unfolding rounds
rounds-IsStop m answer dev zero first ips peers = tt
rounds-IsStop m answer dev (suc fuel) first ips peers =
    let f = fill m first dev ips peers in
    let msg = device_message first dev f.peers f.len in
    next_round-IsStop answer msg (answer msg) f.peer
      (rounds m answer dev fuel false f.allowedip f.peer) refl
      (rounds-IsStop m answer dev fuel false f.allowedip f.peer)

-- Whatever the kernel answers, kernel_set_device returns the answer to its last message, and each
-- message before that one was taken: an error ends the sending, with that error.
pub kernel_set_device-IsStop :
    (m : Mnl) (answer : Message → ℕ) (fuel : ℕ) (dev : WgDevice)
    → OnReturned (IsStop answer) (kernel_set_device m answer fuel dev)
unfolding kernel_set_device
kernel_set_device-IsStop m answer fuel dev = rounds-IsStop m answer dev fuel true [] dev.peers

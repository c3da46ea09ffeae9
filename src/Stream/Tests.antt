-- ===== src/Stream/Tests.antt =====
-- The pump between two concrete endpoints, and its theorem at them.
use mathlib.Core.Option.{Option, none, some}
use zigbee_gateway.Common.{
  ℕ, ◌≤◌, min, ◌≡◌, ◌≢◌, refl, arith, true, List, [], ◌∷◌, ◌++◌, length, take, drop, length-take,
  sym,
}
use mathlib.Core.List.{append-nil}
use zigbee_gateway.Stream.Endpoint.{
  progress, io_progress, io_would_block, ReadReply, WriteReply, ZigbeeStreamEndpoint, IsEndpoint,
}
use zigbee_gateway.Stream.Pump.{empty_buffer, reset, pump, Pumped}
use zigbee_gateway.Stream.Delivery.{IsPumped, pump-IsPumped, reset-queued}
use zigbee_gateway.Stream.Total.{IsCounted, IsUsable, pump_total, reset-IsUsable}

-- Bytes wait on the line; a write takes at most three bytes.
record Pipe : Type 0 where
  waiting : List ℕ
  delivered : List ℕ
  taken : List ℕ

pull : List ℕ → Pipe → ℕ → ReadReply Pipe
pull [] p n = record { result = io_would_block; bytes = []; endpoint = p }
pull (x ∷ xs) p n =
    let got = take n (x ∷ xs) in
    record {
      result = io_progress (length got);
      bytes = got;
      endpoint = record p { waiting = drop n (x ∷ xs); delivered = p.delivered ++ got };
    }

push : Pipe → List ℕ → WriteReply Pipe
push p out =
    let c = min 3 (length out) in
    record { result = io_progress c; endpoint = record p { taken = p.taken ++ take c out } }

abbrev pipe : ZigbeeStreamEndpoint Pipe
pipe = record { read = λ p n. pull p.waiting p n; write = push }

pull-counts :
    (xs : List ℕ) (p : Pipe) (n : ℕ)
    → (pull xs p n).result.state ≡ progress
    → (length (pull xs p n).bytes ≡ (pull xs p n).result.count) × ((pull xs p n).result.count ≤ n)
unfolding pull
pull-counts [] p n h = cc
pull-counts (x ∷ xs) p n h = (refl, omega (arith, length-take n (x ∷ xs)))

pull-idle :
    (xs : List ℕ) (p : Pipe) (n : ℕ)
    → (pull xs p n).result.state ≢ progress
    → (pull xs p n).bytes ≡ []
unfolding pull
pull-idle [] p n h = refl
pull-idle (x ∷ xs) p n h = absurd (h refl)

pull-delivered :
    (xs : List ℕ) (p : Pipe) (n : ℕ)
    → (pull xs p n).endpoint.delivered ≡ p.delivered ++ (pull xs p n).bytes
unfolding pull
pull-delivered [] p n = sym (append-nil p.delivered)
pull-delivered (x ∷ xs) p n = refl

pull-taken : (xs : List ℕ) (p : Pipe) (n : ℕ) → (pull xs p n).endpoint.taken ≡ p.taken
unfolding pull
pull-taken [] p n = refl
pull-taken (x ∷ xs) p n = refl

pipe-IsEndpoint : IsEndpoint pipe (λ p. p.delivered) (λ p. p.taken)
unfolding push
pipe-IsEndpoint = record {
  read_counts = λ e n h. pull-counts e.waiting e n h;
  read_idle = λ e n h. pull-idle e.waiting e n h;
  read_received = λ e n. pull-delivered e.waiting e n;
  write_counts = λ e out h. omega arith;
  write_sent = λ e out h. refl;
  write_idle = λ e out h. absurd (h refl);
  read_sent = λ e n. pull-taken e.waiting e n;
  write_received = λ e out. refl;
}

abbrev client : Pipe
client = record { waiting = 1 ∷ 2 ∷ 3 ∷ 4 ∷ 5 ∷ []; delivered = []; taken = [] }

abbrev radio : Pipe
radio = record { waiting = 9 ∷ 8 ∷ []; delivered = []; taken = [] }

abbrev right_of : Option (Pumped Pipe Pipe) → List ℕ
right_of none = []
right_of (some out) = out.right.taken

pump_runs : right_of (pump pipe pipe true client radio reset) ≡ 1 ∷ 2 ∷ 3 ∷ 4 ∷ 5 ∷ []
unfolding pump pull push reset empty_buffer
pump_runs = refl

pump-IsPumped_example :
    (out : Pumped Pipe Pipe) × (pump pipe pipe true client radio reset ≡ some out)
    × IsPumped pipe pipe
        (λ p. p.delivered)
        (λ p. p.taken)
        (λ p. p.delivered)
        (λ p. p.taken)
        pipe-IsEndpoint
        pipe-IsEndpoint
        []
        []
        client
        radio
        out
unfolding reset
pump-IsPumped_example =
    pump-IsPumped pipe pipe (λ p. p.delivered) (λ p. p.taken) (λ p. p.delivered) (λ p. p.taken)
      pipe-IsEndpoint pipe-IsEndpoint [] [] client radio reset reset-queued.0 reset-queued.0
      (sym reset-queued.1) (sym reset-queued.1)

pipe-IsCounted : IsCounted pipe
unfolding push
pipe-IsCounted = record {
  read_counts = λ e n h. pull-counts e.waiting e n h;
  write_counts = λ e out h. omega arith;
}

pump_total_example :
    (out : Pumped Pipe Pipe) × (pump pipe pipe true client radio reset ≡ some out)
    × IsUsable out.buffers
pump_total_example =
    pump_total pipe pipe pipe-IsCounted pipe-IsCounted client radio reset reset-IsUsable

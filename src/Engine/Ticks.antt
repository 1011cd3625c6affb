-- ===== src/Engine/Ticks.antt =====
-- The engine's timer (engine.cpp, onTimerTick): how often the tunnel proxy server gets its tick.
use Prim.Native.Nat.{◌%◌, ◌^◌, ◌-◌}
use mathlib.Core.Option
use nymea_remoteproxy.State.{TunnelProxyServer}
use nymea_remoteproxy.Server.Lifecycle.{tick}
use nymea_remoteproxy.Base.{
  ℕ, suc, zero, Option, ◌↔◌, ◌≡◌, refl, ◌≤◌, ◌<◌, ◌+◌, ◌*◌, Bool, true, false, List, [], ◌∷◌, arith,
  if◌then◌else◌, leb, Bool-cases, inl, inr, ◌∙◌, ap,
}
use nymea_remoteproxy.Variant.{pos}
use nymea_remoteproxy.Engine.{Engine, counted, at_least, on_timer_tick, minus, to_int32}

-- The times at which the timer runs out, each not before the one before, and less than 2 ^ 31 - 1000
-- milliseconds after it.
abbrev pub Ascending : ℕ → List ℕ → Type 0
Ascending last [] = Unit
Ascending last (now ∷ times) = (last ≤ now) × (now - last < 2 ^ 31 - 1000) × Ascending now times

abbrev pub final : ℕ → List ℕ → ℕ
final last [] = last
final last (now ∷ times) = final now times

-- How often the timer's ticks are passed on to the tunnel proxy server.
unfoldable pub ticks_passed : List ℕ → Engine → ℕ
unfolding on_timer_tick counted
ticks_passed [] e = 0
ticks_passed (now ∷ times) e =
    let rest = ticks_passed times (on_timer_tick now e) in
    if at_least 1000 (counted now e) then suc rest else rest

final_lem : (last : ℕ) (times : List ℕ) → Ascending last times → last ≤ final last times
final_lem last [] h = omega arith
final_lem last (now ∷ times) h = omega (arith, h.0, final_lem now times h.2)

small_int : (n : ℕ) → n < 2 ^ 31 → to_int32 (pos n) ≡ pos n
small_int n h = let same : n % 2 ^ 32 ≡ n = omega (arith, h) in rw same (ground (arith, h))

counted_lem :
    (e : Engine) (k now : ℕ)
    → e.current_time_counter ≡ pos k
    → k < 1000
    → e.last_time_stamp ≤ now
    → now - e.last_time_stamp < 2 ^ 31 - 1000
    → counted now e ≡ pos (k + (now - e.last_time_stamp))
unfolding counted
counted_lem e k now c less before gap =
    let delta : minus now e.last_time_stamp ≡ pos (now - e.last_time_stamp) =
      ground (arith, before) in
    rw (c, delta) (small_int (k + (now - e.last_time_stamp)) (omega (arith, less, gap)))

tick_lem :
    (e : Engine) (k now : ℕ)
    → counted now e ≡ pos k
    → ((on_timer_tick now e).last_time_stamp ≡ now)
      × ((on_timer_tick now e).current_time_counter ≡ (if leb 1000 k then pos 0 else pos k))
unfolding on_timer_tick
tick_lem e k now c = ground (arith, c)

passed_more :
    (b : Bool) (r elapsed later : ℕ)
    → b ≡ true
    → r * 1000 ≤ later
    → 1000 + later ≤ elapsed
    → ((if b then suc r else r) * 1000 ≤ elapsed) × (1000 ≤ elapsed → 1 ≤ (if b then suc r else r))
passed_more true r elapsed later e h k = (omega (arith, h, k), λ due. omega arith)
passed_more false r elapsed later e h k = absurd (ground (arith, e))

passed_no_more :
    (b : Bool) (r elapsed later : ℕ)
    → b ≡ false
    → r * 1000 ≤ later
    → (1000 ≤ later → 1 ≤ r)
    → elapsed ≡ later
    → ((if b then suc r else r) * 1000 ≤ elapsed) × (1000 ≤ elapsed → 1 ≤ (if b then suc r else r))
passed_no_more true r elapsed later e h d same = absurd (ground (arith, e))
passed_no_more false r elapsed later e h d same =
    (omega (arith, h, same), λ due. d (omega (arith, due, same)))

passed_lem :
    (times : List ℕ) (e : Engine) (k last : ℕ)
    → e.current_time_counter ≡ pos k
    → k < 1000
    → e.last_time_stamp ≡ last
    → Ascending last times
    → (ticks_passed times e * 1000 ≤ k + (final last times - last))
      × (1000 ≤ k + (final last times - last) → 1 ≤ ticks_passed times e)
unfolding ticks_passed
passed_lem [] e k last c less l h = (omega arith, λ due. absurd (omega (arith, less, due)))
passed_lem (now ∷ times) e k last c less l h =
    let n = k + (now - last) in
    let e' = on_timer_tick now e in
    let count : counted now e ≡ pos n =
      counted_lem e k now c less (omega (arith, l, h.0)) (omega (arith, l, h.1))
      ∙ ap (λ t. pos (k + (now - t))) l in
    let after = tick_lem e n now count in
    let later = final_lem now times h.2 in
    elim (Bool-cases (leb 1000 n)) [
      | inl due ↦
          let rest =
            passed_lem times e' 0 now (after.1 ∙ ap (λ b. if b then pos 0 else pos n) due)
              (omega arith) after.0 h.2 in
          let passes : at_least 1000 (counted now e) ≡ true = ap (at_least 1000) count ∙ due in
          passed_more _ (ticks_passed times e') (k + (final now times - last)) _ passes rest.0
            (ground (arith, due, h.0, later))
      | inr early ↦
          let rest =
            passed_lem times e' n now (after.1 ∙ ap (λ b. if b then pos 0 else pos n) early)
              (ground (arith, early)) after.0 h.2 in
          let waits : at_least 1000 (counted now e) ≡ false = ap (at_least 1000) count ∙ early in
          passed_no_more _ (ticks_passed times e') (k + (final now times - last))
            (n + (final now times - now)) waits rest.0 rest.1 (omega (arith, h.0, later))
    ]

-- The engine after the timer has run out at these times.
unfoldable pub run_times : List ℕ → Engine → Engine
run_times [] e = e
run_times (now ∷ times) e = run_times times (on_timer_tick now e)

-- The tunnel proxy server, if there is one, after this many ticks of its own.
abbrev pub ticked : ℕ → Option TunnelProxyServer → Option TunnelProxyServer
ticked zero w = w
ticked (suc n) w = ticked n (Option.map tick w)

passed_on :
    (now : ℕ) (e : Engine)
    → (on_timer_tick now e).tunnel_proxy_server ≡ (
        if at_least 1000 (counted now e)
        then Option.map tick e.tunnel_proxy_server
        else e.tunnel_proxy_server)
unfolding on_timer_tick
passed_on now e = ground arith

ticked_first :
    (due : Bool) (n : ℕ) (w w' : Option TunnelProxyServer)
    → w' ≡ (if due then Option.map tick w else w)
    → ticked n w' ≡ ticked (if due then suc n else n) w
ticked_first true n w w' e = ap (ticked n) e
ticked_first false n w w' e = ap (ticked n) e

run_times-ticked :
    (times : List ℕ) (e : Engine)
    → (run_times times e).tunnel_proxy_server ≡ ticked (ticks_passed times e) e.tunnel_proxy_server
unfolding run_times ticks_passed
run_times-ticked [] e = refl
run_times-ticked (now ∷ times) e =
    run_times-ticked times (on_timer_tick now e)
    ∙ ticked_first (at_least 1000 (counted now e)) (ticks_passed times (on_timer_tick now e))
        e.tunnel_proxy_server (on_timer_tick now e).tunnel_proxy_server (passed_on now e)

-- When the timer of an engine whose last tick was less than a second ago runs out at times that
-- do not go back, the tunnel proxy server is in the end as it is after a number of its own ticks:
-- at least one if a second has passed since its last, and at most one for each second that has
-- passed. The gaps between the times are below 2 ^ 31 - 1000 milliseconds.
pub server_ticked :
    (e : Engine) (k : ℕ) (times : List ℕ)
    → e.current_time_counter ≡ pos k
    → k < 1000
    → Ascending e.last_time_stamp times
    → let elapsed = k + (final e.last_time_stamp times - e.last_time_stamp) in
      (n : ℕ) × ((run_times times e).tunnel_proxy_server ≡ ticked n e.tunnel_proxy_server)
      × (n * 1000 ≤ elapsed)
      × ((n ≡ 0) ↔ (elapsed < 1000))
server_ticked e k times c less h =
    let bounds = passed_lem times e k e.last_time_stamp c less refl h in
    (
      ticks_passed times e,
      run_times-ticked times e,
      bounds.0,
      (λ none. ground (arith, none, bounds.1), λ soon. ground (arith, soon, bounds.0)),
    )

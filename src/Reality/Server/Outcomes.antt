-- ===== src/Reality/Server/Outcomes.antt =====
-- tls.go: what the runs of `Server` come to.
use electricity.Common.{ℕ, ◌≡◌, Bool, true, false, [], arith}
use electricity.Wire.{Cryptobyte}
use electricity.Reality.Auth.{Config, Crypto}
use electricity.Reality.Server.{reading, Server, Reached, returned}
use electricity.Reality.Server.Sound.{Reached-Sound}

-- When `Server` goes over to forwarding, what was written to the client is exactly what the target
-- sent until then, and what was written to the target exactly what was read of the client, nothing
-- changed or lost; and no connection is returned. Before the second goroutine's loop ends, nothing is
-- written to the client.
pub forwarded-transparent :
    (cb : Cryptobyte) (suite_known : ℕ → Bool) (crypto : Crypto) (config : Config) (s : Server)
    → Reached cb suite_known crypto config s
    → (s.copying_back ≡ true
        → (s.to_client ≡ s.received) × (s.to_target ≡ s.from_client) × (returned s ≡ false))
      × (s.turn ≡ reading → s.to_client ≡ [])
unfolding returned
forwarded-transparent cb suite_known crypto config s reached =
    let f = Reached-Sound cb suite_known crypto config reached in
    (
      (λ h. let (whole, open_) = f.copied h in (whole, f.mirrored, ground (arith, open_))),
      (λ h. let (_, idle) = f.undecided h in f.silent idle),
    )

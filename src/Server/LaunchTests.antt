-- ===== src/Server/LaunchTests.antt =====
-- cmd/api/main.go: the theorems on serve, the commands and the log at concrete inputs.
use braelaspin.Prelude.{inl, inr, arith, ◌≡◌, ◌⊎◌, refl, suc, ◌-◌, true, false, codes, ok}
use braelaspin.Config.Tests.{settings}
use braelaspin.Migrations.Samples.{Bench, bench, counts, answering, answering-IsDriver}
use braelaspin.Server.Serve.{Platform, serve}
use braelaspin.Server.Releases.{IsPlatform, serve-handles}
use braelaspin.Migrations.Current.{IsQuiet}
use braelaspin.Server.Ready.{Ready, serve-Ready}
use braelaspin.Server.Logs.{text, redact, Alike, redact_hides}

abbrev platform : Platform Bench Unit
platform = record {
  driver = answering;
  redis_driver = record {
    parses = λ url. true;
    new_client = λ url n b. record b { in_use = suc b.in_use };
    ping = λ b. (ok tt, b);
    close = λ b. record b { in_use = b.in_use - 1 };
  };
  new_api = λ c b. (ok tt, b);
  listen = λ addr b. (ok tt, record b { listening = true });
  shutdown = λ b. (ok tt, b);
}

platform-IsPlatform : IsPlatform platform counts
platform-IsPlatform = record {
  driver = answering-IsDriver;
  new_client-opens = λ url n s. refl;
  ping-keeps = λ s. refl;
  close-closes = λ s. refl;
  new_api-keeps = λ c s. refl;
  listen-keeps = λ addr s. refl;
  shutdown-keeps = λ s. refl;
}

serve-handles_example : counts (serve platform settings bench).1 ≡ 0
serve-handles_example = serve-handles platform-IsPlatform settings bench

abbrev Idle : Bench → Type 0
Idle b = b.listening ≡ false

platform-IsQuiet : IsQuiet answering Idle
platform-IsQuiet = record {
  new_pool-Idle = λ c s h. h;
  ping-Idle = λ s h. h;
  close_pool-Idle = λ s h. h;
  open_db-Idle = λ url s h. h;
  close_db-Idle = λ s h. h;
  new_provider-Idle = λ s h. h;
  up-Idle = λ s h. h;
  status-Idle = λ s h. h;
}

serve-Ready_example : Idle (serve platform settings bench).1 ⊎ Ready platform settings Idle
serve-Ready_example = serve-Ready platform settings platform-IsQuiet bench refl

alike : Alike {A = Unit} (codes "Phone") (text (codes "254712345678")) (text (codes "254799999678"))
alike =
    Alike.as_phone (inr (omega arith, refl), (inl refl, (inl refl, (inl refl, (inl refl, tt)))))
      (record { lengths = refl; fronts = refl; ends = refl })

redact_hides_example :
    redact (λ c. c) {A = Unit} (record { key = codes "Phone"; value = text (codes "254712345678") })
    ≡ redact (λ c. c) (record { key = codes "Phone"; value = text (codes "254799999678") })
redact_hides_example =
    redact_hides (λ c. c) (codes "Phone") (text (codes "254712345678"))
      (text (codes "254799999678")) alike

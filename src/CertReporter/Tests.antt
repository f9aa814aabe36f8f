-- ===== src/CertReporter/Tests.antt =====
-- router/src/reporter.rs: a certificate that is replayed with another digest, and the theorems there.
use commonware_restaking.Prelude.{ℕ, ◌≡◌, refl, Bool, leb, true, some, List, [], ◌∷◌, arith}
use commonware_restaking.Map
use commonware_restaking.CertReporter.{
  CertifiedHeight, Message, certified, tip, get, get_tip, CertReporter, new, run, handle,
  handle_certified, advance_tip, forward,
}
use commonware_restaking.CertReporter.Window.{at_height, run_keeps}
use commonware_restaking.CertReporter.Mailbox.{
  Activity, new_certificate, tip_advance, own_ack, report_all, ask_tip, ask_digest,
}
use commonware_restaking.CertReporter.Queries.{Known, ask_digest-report_all}

-- The scheme accepts the certificates from 100 on.
abbrev accepts : CertifiedHeight ℕ ℕ → Bool
accepts c = leb 100 c.certificate

abbrev four : CertifiedHeight ℕ ℕ
four = record { height = 4; digest = 44; certificate = 144 }

abbrev four_again : CertifiedHeight ℕ ℕ
four_again = record { height = 4; digest = 45; certificate = 145 }

abbrev bad : CertifiedHeight ℕ ℕ
bad = record { height = 9; digest = 99; certificate = 3 }

abbrev after_four : CertReporter ℕ ℕ
after_four = record {
  certified = (4, 44) ∷ [];
  tip = 5;
  consumer_open = true;
  forwarded = four ∷ [];
  answers = [];
}

abbrev replay : List (Message ℕ ℕ)
replay = certified four_again ∷ certified bad ∷ tip 1000 ∷ get 4 1 ∷ get_tip 2 ∷ []

replayed_tip : (run accepts (new true) (certified four ∷ replay)).tip ≡ 1000
unfolding run handle handle_certified advance_tip forward Map.get Map.insert Map.split_off
replayed_tip = refl

run_keeps_example :
    (Map.get (run accepts after_four replay).certified 4 ≡ some 44)
    × (at_height 4 (run accepts after_four replay).forwarded ≡ four ∷ [])
unfolding run handle handle_certified advance_tip forward Map.get Map.insert Map.split_off
run_keeps_example = run_keeps accepts after_four replay 4 44 refl (omega arith)

-- An own ack is not for the actor.
abbrev activity : List (Activity ℕ ℕ)
activity = own_ack 3 ∷ new_certificate four ∷ new_certificate bad ∷ tip_advance 7 ∷ []

tip_told : ask_tip true accepts (new true) (report_all [] activity) 1 ≡ 7
unfolding ask_tip report_all run handle handle_certified advance_tip forward Map.get Map.insert
    Map.split_off
tip_told = refl

ask_digest-report_all_example :
    Known accepts activity 4 44 (ask_tip true accepts (new true) (report_all [] activity) 2)
unfolding ask_digest report_all run handle handle_certified advance_tip forward Map.get Map.insert
    Map.split_off
ask_digest-report_all_example =
    ask_digest-report_all accepts true activity 4 1 2 (tt, (omega arith, (omega arith, (tt, tt))))
      refl

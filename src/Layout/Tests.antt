-- ===== src/Layout/Tests.antt =====
-- lib.rs: the theorems on the recovery at concrete inputs.
use macvnc.Base.{◌≡◌, refl, [], ◌∷◌, some, none, if◌then◌else◌}
use macvnc.Layout.{LayoutRecovery, same_dimensions, too_soon}
use macvnc.Layout.Requests.{
  announced, asked, sent, IsSpaced, announcements, questions, sent-IsSpaced, sent-coalesced,
}

abbrev connected : LayoutRecovery
connected = record { current = some (1920, 1080); pending = none; last_sent = some 1000 }

sent-IsSpaced_example :
    IsSpaced connected.last_sent
      (sent connected (announced (1280, 720) ∷ asked 2000 ∷ asked 3000 ∷ asked 5000 ∷ []))
sent-IsSpaced_example =
    sent-IsSpaced (announced (1280, 720) ∷ asked 2000 ∷ asked 3000 ∷ asked 5000 ∷ []) connected

sent-coalesced_example :
    sent connected
      (announcements ((800, 600) ∷ []) (announced (1280, 720) ∷ questions (3000 ∷ 6000 ∷ [])))
    ≡ (if same_dimensions (1920, 1080) (1280, 720) then [] else 3000 ∷ [])
sent-coalesced_example =
    sent-coalesced ((800, 600) ∷ []) connected (1920, 1080) (1280, 720) 3000 (6000 ∷ []) refl
      (unfold too_soon in refl)

-- ===== src/Trader/Notify.antt =====
-- `send` of notify.py: push notifications, which never raise.
use infra_lab.Base.{ℕ, String, Bool, false, ok, if◌then◌else◌, ltb, Exec}
use infra_lab.Base.Stateful.{pure}
use infra_lab.Base.Text.{strip, take_text, is_blank}
use infra_lab.Trader.World.{World, Run, send, notify}

-- `_ascii`: without the characters that are not ASCII.
ascii : String → String
ascii String.[] = String.[]
ascii (String.◌∷◌ c s) =
    if ltb (Prim.Native.Char.code c) 128 then String.◌∷◌ c (ascii s) else ascii s

-- The title is cut to 120 characters and the message to 3800; whether the request went through is
-- what comes back. The text of a message is taken to be ASCII where it is cut by bytes.
unfoldable pub send_notice :
    {F : Type 0} (w : World F) → String → String → String → ℕ → Exec (Run F) Bool
unfolding ascii take_text strip
send_notice w topic title message priority =
    if is_blank topic
    then pure false
    else send (notify (strip topic) (take_text 120 (ascii title)) (take_text 3800 message) priority)
        (λ h. ok (w.notify h (strip topic)))

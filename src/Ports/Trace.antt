-- ===== src/Ports/Trace.antt =====
-- What a trace of source/src/hardwarecommunication/port.cpp tells of one port, and of what was printed.
use implementing_os_and_syst.Base.{ℕ, List, [], ◌∷◌, ◌++◌, ◌==◌, if◌then◌else◌}
use implementing_os_and_syst.Ports.{Event, received, sent, printed}

-- The values that were sent to a port, newest first.
abbrev pub sent_to : ℕ → List Event → List ℕ
sent_to p [] = []
sent_to p (received w q v ∷ t) = sent_to p t
sent_to p (sent w q v ∷ t) = if q == p then v ∷ sent_to p t else sent_to p t
sent_to p (printed text ∷ t) = sent_to p t

-- The characters that were printed, in their order.
abbrev pub shown : List Event → List ℕ
shown [] = []
shown (received w q v ∷ t) = shown t
shown (sent w q v ∷ t) = shown t
shown (printed text ∷ t) = shown t ++ text

-- ===== src/Server/Dispatch.antt =====
-- src/server.cpp, the lambda that `Server::accept` gives each session to push with.
pub mod Fanout
use scriptor.Prelude.{List, [], ◌∷◌}
use scriptor.Element.{Element}
use scriptor.Logger.{Logger, push}

-- The loop over `m_loggers`.
push_each : List Logger → List Element → List Logger
push_each [] elements = []
push_each (l ∷ ls) elements = push l elements ∷ push_each ls elements

-- With one logger the elements are moved into it, otherwise each gets a copy.
unfoldable pub dispatch : List Logger → List Element → List Logger
unfolding push_each
dispatch (l ∷ []) elements = push l elements ∷ []
dispatch ls elements = push_each ls elements

-- The pushes of a session, one after the other.
unfoldable pub dispatch_all : List Logger → List (List Element) → List Logger
dispatch_all ls [] = ls
dispatch_all ls (es ∷ ess) = dispatch_all (dispatch ls es) ess

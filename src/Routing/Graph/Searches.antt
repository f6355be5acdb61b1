-- ===== src/Routing/Graph/Searches.antt =====
-- graph.py: the searches of the knowledge base in a turn.
use water_info.Base.{Bool, true, false, string_eq}
use water_info.Routing.State.{State}
use water_info.Routing.Graph.{Node, memory_loader}

is_loader : Node → Bool
is_loader memory_loader = true
is_loader _ = false

-- ===== src/Tcp/Examples.antt =====
-- The theorems on the transport layer, applied to small connections.
use computer_network.Prelude.{◌≡◌, refl, true, false, [], ◌∷◌, some}
use computer_network.Tcp.Segment.{Segment, no_segment, htonl}
use computer_network.Tcp.Context.{new_context, network_send, header}
use computer_network.Tcp.Transport.{Event, control_loop, transport_init}
use computer_network.Tcp.Transport.Closing.{closed_first_hangs, half_closed, app_closes}
use computer_network.Tcp.Transport.Live.{IsLive, transport_init-IsLive}

abbrev fin_segment : Segment
fin_segment = record no_segment { th_flags = 1 }

abbrev data_event : Event
data_event = record {
  from_app = some (1 ∷ []);
  from_network = some (fin_segment, []);
  close = false;
}

closed_first_hangs_example :
    control_loop new_context (app_closes ∷ data_event ∷ [])
    ≡ (half_closed new_context, network_send (header (htonl 0) 0 1) [] ∷ [])
closed_first_hangs_example = closed_first_hangs new_context (data_event ∷ []) refl refl (refl, tt)

transport_init-IsLive_example :
    IsLive (transport_init false 9 true fin_segment no_segment (data_event ∷ app_closes ∷ [])).0
transport_init-IsLive_example =
    transport_init-IsLive false 9 true fin_segment no_segment (data_event ∷ app_closes ∷ [])

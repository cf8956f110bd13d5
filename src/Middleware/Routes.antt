-- ===== src/Middleware/Routes.antt =====
-- Which guards stand before which handlers: the routes of the event service, the ticket service and
-- the auth service (internal/handler/routes.go of each). A route is named for its handler.
use entra_api.Base.{String, List, [], ◌∷◌}
use entra_api.Middleware.{
  ParseWithClaims, Middleware, jwt_auth, require_role, require_internal_secret,
  require_internal_secret_or_roles,
}

pub data EventRoute : Type 0 where
  reserve_tickets release_tickets get_ticket_type get_internal_event_ids : EventRoute
  list_events get_event list_tickets search_events list_categories list_venues get_venue :
      EventRoute
  list_by_organizer create_event update_event delete_event : EventRoute
  create_ticket_type update_ticket_type delete_ticket_type create_venue : EventRoute

pub data TicketRoute : Type 0 where
  midtrans_webhook get_ticket_by_code get_event_gate_stats : TicketRoute
  create_order list_my_orders get_order_queue_status cancel_order create_payment_token : TicketRoute
  list_my_tickets get_organizer_stats get_sales_trend list_organizer_orders : TicketRoute
  get_organizer_order get_event_attendees get_organizer_balance request_withdrawal : TicketRoute
  list_organizer_withdrawals get_organizer_withdrawal : TicketRoute
  admin_list_withdrawals admin_update_withdrawal_status get_admin_platform_stats : TicketRoute

pub data AuthRoute : Type 0 where
  register login refresh_token forgot_password reset_password get_public_profile : AuthRoute
  get_users_batch lookup_user_by_email : AuthRoute
  get_profile update_profile change_password logout upgrade_to_organizer : AuthRoute

module _ (parse_with_claims : ParseWithClaims) (internal secret : String) where
  -- The group of organizers and administrators.
  abbrev pub organizer_guards : List Middleware
  organizer_guards =
      jwt_auth parse_with_claims secret ∷ require_role ("organizer" ∷ "admin" ∷ []) ∷ []

  -- The group of administrators lies in the one of all users.
  abbrev pub admin_guards : List Middleware
  admin_guards = jwt_auth parse_with_claims secret ∷ require_role ("admin" ∷ []) ∷ []

  abbrev pub user_guards : List Middleware
  user_guards = jwt_auth parse_with_claims secret ∷ []

  abbrev pub internal_guards : List Middleware
  internal_guards = require_internal_secret internal ∷ []

  unfoldable pub event_guards : EventRoute → List Middleware
  event_guards reserve_tickets = internal_guards
  event_guards release_tickets = internal_guards
  event_guards get_ticket_type = internal_guards
  event_guards get_internal_event_ids = internal_guards
  event_guards list_events = []
  event_guards get_event = []
  event_guards list_tickets = []
  event_guards search_events = []
  event_guards list_categories = []
  event_guards list_venues = []
  event_guards get_venue = []
  event_guards list_by_organizer = organizer_guards
  event_guards create_event = organizer_guards
  event_guards update_event = organizer_guards
  event_guards delete_event = organizer_guards
  event_guards create_ticket_type = organizer_guards
  event_guards update_ticket_type = organizer_guards
  event_guards delete_ticket_type = organizer_guards
  event_guards create_venue = organizer_guards

  unfoldable pub ticket_guards : TicketRoute → List Middleware
  ticket_guards midtrans_webhook = []
  ticket_guards get_ticket_by_code = internal_guards
  ticket_guards get_event_gate_stats = internal_guards
  ticket_guards create_order = user_guards
  ticket_guards list_my_orders = user_guards
  ticket_guards get_order_queue_status = user_guards
  ticket_guards cancel_order = user_guards
  ticket_guards create_payment_token = user_guards
  ticket_guards list_my_tickets = user_guards
  ticket_guards get_organizer_stats = user_guards
  ticket_guards get_sales_trend = user_guards
  ticket_guards list_organizer_orders = user_guards
  ticket_guards get_organizer_order = user_guards
  ticket_guards get_event_attendees = user_guards
  ticket_guards get_organizer_balance = user_guards
  ticket_guards request_withdrawal = user_guards
  ticket_guards list_organizer_withdrawals = user_guards
  ticket_guards get_organizer_withdrawal = user_guards
  ticket_guards admin_list_withdrawals = admin_guards
  ticket_guards admin_update_withdrawal_status = admin_guards
  ticket_guards get_admin_platform_stats = admin_guards

  unfoldable pub auth_guards : AuthRoute → List Middleware
  auth_guards register = []
  auth_guards login = []
  auth_guards refresh_token = []
  auth_guards forgot_password = []
  auth_guards reset_password = []
  auth_guards get_public_profile = []
  auth_guards get_users_batch =
      require_internal_secret_or_roles parse_with_claims internal secret
        ("organizer" ∷ "admin" ∷ [])
      ∷ []
  auth_guards lookup_user_by_email =
      require_internal_secret_or_roles parse_with_claims internal secret
        ("organizer" ∷ "admin" ∷ [])
      ∷ []
  auth_guards get_profile = user_guards
  auth_guards update_profile = user_guards
  auth_guards change_password = user_guards
  auth_guards logout = user_guards
  auth_guards upgrade_to_organizer = user_guards

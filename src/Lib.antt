-- ===== src/Lib.antt =====
-- Verification library of the backend of a shop for building materials: delivery slots, free
-- deliveries, the cart, loyalty points, orders from placing to delivery, online payments, requisitions.
--
-- Parts of the program, the files that model them, and what they correspond to:
--   Delivery/Slots/Store, Ops (src/modules/delivery/delivery-slot.service.ts): the slots and their
--     reservations; expireStaleReservations, holdSlot, confirmReservation, releaseOrderReservation and
--     upsertSlot, each a function from the tables to the tables. A hold lasts a fixed time.
--   Delivery/Benefit (src/modules/delivery/delivery-benefit.service.ts): the free bike deliveries of a
--     customer, used by an order and restored when it is cancelled.
--   Delivery/Vehicles, Vehicles/Selection (src/modules/delivery/engine/delivery-vehicle-selection.logic.ts,
--     delivery-load.types.ts): the vehicle or the trips that are chosen for a load, selectVehicleForLoad.
--   Delivery/Windows (src/modules/delivery/delivery-slot.logic.ts): the windows of a day that a checkout
--     offers, and the rules that a chosen one is checked against.
--   Coverage/Geo, Routing (src/common/geo/geo.util.ts, src/modules/coverage/hub-routing.logic.ts): the
--     hub that an order is routed to, evaluateHubRouting. Its result is an input of Orders/Placement.
--   Loyalty/Ledger (src/modules/loyalty/loyalty-transaction.service.ts): the account and its entries;
--     recordEntry, which finds an entry of the same reference, posts a credit, or takes a debit out of
--     the oldest lots. Loyalty/Redemption: validateRedemption and its limits (loyalty.constants.ts).
--     Loyalty/Expiry, Nightly (src/modules/scheduler/services/loyalty.service.ts): the job that expires
--     lots, at most 500 of all accounts in a run. Loyalty/Orders: what an order does to the ledger.
--   Orders/Status (src/modules/orders/order-lifecycle.constants.ts): statuses and allowed changes.
--   Orders/Drivers (src/modules/drivers/driver-status.util.ts): the status of a driver.
--   Orders/World, Effects: the tables of an order, its hub's stock, its driver and vehicle, and the
--     calls of the other services. Orders/Hub, Handover, Requests (src/hub/orders/hub-orders.service.ts,
--     src/hub/repositories/hub-order.repository.ts, src/admin/orders/admin-orders.service.ts): what the
--     hub and the administrator do. Orders/Customer (src/modules/orders/orders.service.ts): cancellation
--     by the customer, confirmation of a paid order and release of an unpaid one.
--   Cart (src/modules/cart/cart.service.ts, src/common/shopping/pricing.util.ts): the lines of a cart,
--     their prices by quantity, and the limits and the stock that an addition is checked against.
--   Orders/Shop, Placement (src/modules/orders/orders.service.ts): placeOrder, with its transaction over
--     the stock, the variants, the order, its slot, the cart, the loyalty points and the free delivery.
--   Orders/Rescheduling (src/modules/delivery/delivery-schedule.service.ts): another slot for an order,
--     proposed by the hub, and accepted or declined by the customer.
--   Payments/Gateway (src/modules/payments/razorpay.crypto.ts, razorpay.service.ts): the statuses of a
--     payment, the attempt that decides, and the gateway's calls. Payments/Rows, Remote, State, Sync,
--     Checkout, Webhooks (src/modules/payments/payments.service.ts): the payment rows; applyRemotePayment;
--     syncOrderPayment and the timer that calls it; verifyCheckoutPayment and cancelCheckout;
--     handleWebhook. They call confirmPaidOrder and releaseUnpaidOnlineOrder of Orders/Customer; the
--     payment rows that the latter cancels stand in Payments/Sync. Placing an order, which releases the
--     unpaid orders of the customer too, is over the tables of the orders and leaves those rows out.
--   Requisitions/Table, Ops, Shipping (src/modules/requisitions/requisitions.service.ts): a requisition
--     of stock by a hub, from its creation over allocation and dispatch at the warehouse to its receipt,
--     with the stock of both and its ledger.
--   Prelude/Handlers: handlers as functions on a state, and relations that they respect.
--
-- A handler of an order or a payment is a function from the tables to the tables and a result:
-- what it wrote before an exception stays, since its calls share no transaction; inside a
-- transaction an error returns no tables. Handlers run one after another, so races between two
-- requests are not modelled. The loops of the sources run over lists or a number of days and are
-- structural recursions, but for buildDurationSlots, which runs on as much fuel as there are
-- minutes to the closing time, and one more: each turn takes five minutes at least. Dates are
-- numbers of days, since the code only adds days to them and takes their weekday. Distances and
-- radii are whole metres, coordinates units of 1e-7 degrees.
--
-- Parameters, since their code is not in the repository: months of the calendar, `trim` and
-- `toUpperCase` of JavaScript, the random code of a delivery, and the floating-point divisions of
-- the redemption limits, of which only bounds are assumed; the haversine distance, which is
-- computed in floating point, and `localeCompare`; what the payment gateway answers to a call, the
-- verification of signatures and the parsing of JSON. Amounts are whole rupees, those of
-- payment rows and the loyalty programme paise, times milliseconds; the prices of a cart are paise and tax rates hundredths of a
-- percent; weights, volumes and capacities are whole numbers of their smallest unit, and their
-- quotients are exact before they are rounded up. A text that names a status at the gateway is a
-- constructor, with one for all texts that the code does not know.
--
-- Not modelled: notifications, events, caches, invoices, photos, remarks, names, the status
-- history of a vehicle and the expected time of a delivery; the checkout that an order is placed
-- from, a function of the tables here, with its prices and the checks of the delivery preference;
-- the making of a payment; accounts, the catalogue and the infrastructure, which are queries and
-- library calls.
pub mod Prelude
pub mod Delivery
pub mod Coverage
pub mod Cart
pub mod Loyalty
pub mod Orders
pub mod Requisitions
pub mod Payments

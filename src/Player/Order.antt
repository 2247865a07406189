-- ===== src/Player/Order.antt =====
-- The order in which the delays of player/context.h show pictures.

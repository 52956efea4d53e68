-- ===== src/Storage/Requests/Pages.antt =====
-- x

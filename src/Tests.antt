-- ===== src/Tests.antt =====
-- Runs of the model on small concrete data, with lists for collections.
mod Demo
mod Money
mod Trading
mod Others
mod Web
mod Startup
mod Orders
